-- ===== src/Tree.antt =====
-- The line that the tree of devices is printed through (src/ls-tree.c: tree_printf, print_it): a
-- buffer of 1024 bytes that holds what was printed of the line so far.
pub mod Lines
use adnacom_hotplug.Common.{
  ℕ, ◌+◌, ◌-◌, Bool, true, false, ◌||◌, List, [], ◌∷◌, ◌++◌, leb, ◌==◌, if◌then◌else◌, length, take,
  drop, Outcome, ok, fault, ◌>>=◌,
}
use adnacom_hotplug.Common.Text.{Text}

-- LINE_BUF_SIZE
abbrev pub line_buf_size : ℕ
line_buf_size = 1024

-- A store of bytes from a place of the buffer on; outside the buffer it is a fault.
unfoldable pub store : List ℕ → ℕ → Text → Outcome (List ℕ)
store line p text =
    if leb (p + length text) (length line)
    then ok (take p line ++ (text ++ drop (p + length text) line))
    else fault

-- `vsnprintf` stores what fits in front of `end`, and a terminator, and returns the length of the
-- whole text. The result is the line and the place behind the text.
unfoldable pub tree_printf : List ℕ → ℕ → Text → Outcome (List ℕ × ℕ)
tree_printf line p text =
    let end = line_buf_size - 2 in
    if leb end p
    then ok (line, p)
    else store line p (take (end - p - 1) text ++ 0 ∷ []) >>= λ l. ok (l, p + length text)

-- `fputs`: the bytes in front of the terminator. A text without one is read past its end.
unfoldable pub fputs : List ℕ → Outcome Text
fputs [] = fault
fputs (c ∷ line) = let rest = fputs line >>= λ t. ok (c ∷ t) in if c == 0 then ok [] else rest

abbrev pub blank_char : ℕ → ℕ
blank_char c = if c == b'+' || c == b'|' then b'|' else b' '

-- What the next line of the tree begins with: the bars go on.
unfoldable pub blank : List ℕ → List ℕ
blank [] = []
blank (c ∷ line) = let rest = blank line in if c == 0 then c ∷ line else blank_char c ∷ rest

-- What is printed, and the line that is left.
unfoldable pub print_it : List ℕ → ℕ → Outcome (Text × List ℕ)
print_it line p = do
  with_newline ← store line p (b'\n' ∷ [])
  whole ← store with_newline (p + 1) (0 ∷ [])
  text ← fputs whole
  ok (text, blank whole)
