-- ===== src/Tests/Lines.antt =====
-- Instances of the properties of the line of the tree.
use adnacom_hotplug.Common.{
  ◌≡◌, ℕ, List, [], ◌∷◌, ◌++◌, length, replicate, length-replicate, fault, ◌>>=◌, arith,
}
use adnacom_hotplug.Common.Text.{Text}
use adnacom_hotplug.Tree.{tree_printf, print_it}
use adnacom_hotplug.Tree.Lines.{tree_printf_overrun}

-- "+-", and "00.0".
abbrev branch : Text
branch = b'+' ∷ b'-' ∷ []

abbrev slot_text : Text
slot_text = b'0' ∷ b'0' ∷ b'.' ∷ b'0' ∷ []

room : List ℕ
room = replicate 1022 7

-- A deep tree, and the name of a device.
deep : List ℕ
deep = replicate 1000 b' '

long_name : Text
long_name = replicate 60 b'x'

behind : List ℕ
behind = replicate 24 7

tree_printf_overrun_example :
    (tree_printf (deep ++ behind) (length deep) long_name >>= λ r. print_it (r.0) (r.1)) ≡ fault
unfolding deep behind long_name
tree_printf_overrun_example =
    tree_printf_overrun deep behind long_name
      (omega (arith, length-replicate {A = ℕ} 1000 b' ', length-replicate {A = ℕ} 24 7))
      (omega (arith, length-replicate {A = ℕ} 1000 b' '))
      (omega (arith, length-replicate {A = ℕ} 1000 b' ', length-replicate {A = ℕ} 60 b'x'))
