-- ===== src/Tree/Lines.antt =====
-- What the line of the tree holds (src/ls-tree.c: tree_printf, print_it).
use adnacom_hotplug.Common.{
  ◌≡◌, refl, ℕ, ◌+◌, ◌-◌, ◌≤◌, ◌<◌, true, false, List, [], ◌∷◌, ◌++◌, leb, length, take, drop, ok,
  fault, ◌>>=◌, arith, length-append, Bool-cases, inl, inr, length-take, length-drop,
}
use adnacom_hotplug.Tree.{line_buf_size, store, tree_printf, print_it}

store-fault :
    (line text : List ℕ) (p : ℕ) → length line < p + length text → store line p text ≡ fault
unfolding store
store-fault line text p h =
    let over : leb (p + length text) (length line) ≡ false = ground arith in rw over refl

length-store :
    (line text : List ℕ) (p : ℕ) (h : p + length text ≤ length line)
    → (l : List ℕ) × (store line p text ≡ ok l) × (length l ≡ length line)
unfolding store
length-store line text p h =
    let fits : leb (p + length text) (length line) ≡ true = ground arith in
    let rest = drop (p + length text) line in
    (
      take p line ++ (text ++ rest),
      rw fits refl,
      omega (
        arith,
        length-append (take p line) (text ++ rest),
        length-append text rest,
        length-take p line (omega arith),
        length-drop (p + length text) line h,
      ),
    )

print_it-fault : (line : List ℕ) (p : ℕ) → length line ≡ 1024 → 1023 ≤ p → print_it line p ≡ fault
unfolding print_it
print_it-fault line p size h = elim (Bool-cases (leb 1024 p)) [
  | inl far ↦ rw (store-fault line (b'\n' ∷ []) p (ground arith)) refl
  | inr last ↦
      let at : p ≡ 1023 = ground arith in
      let (l, stored, same) = length-store line (b'\n' ∷ []) p (omega arith) in
      rw (stored, store-fault l (0 ∷ []) (p + 1) (omega (arith, same))) refl
]

-- A buffer of 1024 bytes that holds `done`; what is behind it does not matter.
module _ (done room text : List ℕ) (whole : length done + length room ≡ line_buf_size) where
  -- A line of fewer than 1022 characters, and a text with which it would come to 1023 or more: the
  -- print of the text and the end of the line write outside the buffer.
  pub tree_printf_overrun :
      length done < 1022
      → 1023 ≤ length done + length text
      → (tree_printf (done ++ room) (length done) text >>= λ r. print_it (r.0) (r.1)) ≡ fault
  unfolding tree_printf
  tree_printf_overrun h k =
      let n : ℕ = line_buf_size - 2 - length done - 1 in
      let open_line : leb (line_buf_size - 2) (length done) ≡ false = ground arith in
      let sized : length (take n text ++ 0 ∷ []) ≡ n + 1 =
        omega (arith, length-append (take n text) (0 ∷ []), length-take n text (omega arith)) in
      let line_size : length (done ++ room) ≡ 1024 = omega (arith, length-append done room) in
      let (l, stored, same) =
        length-store (done ++ room) (take n text ++ 0 ∷ []) (length done)
          (omega (arith, sized, line_size)) in
      rw (open_line, stored)
        (print_it-fault l (length done + length text) (omega (arith, same, line_size)) k)
