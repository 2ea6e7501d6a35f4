-- ===== src/Vpd/Image.antt =====
-- A device whose vital product data is given, and the loop over a product name (src/ls-vpd.c:
-- cap_vpd).
use adnacom_hotplug.Common.{
  drop-add, drop-all, take-drop_all, AllOf-take, AllOf-drop, AllOf, ◌≡◌, ◌≢◌, refl, sym, ◌∙◌, ap, ℕ,
  zero, suc, ◌+◌, ◌-◌, ◌<◌, ◌≤◌, Bool, true, Option, none, some, List, [], ◌∷◌, ◌++◌, if◌then◌else◌,
  ltb, leb, arith, length, take, drop, subst, Bool-cases, ltb→lt, inl, inr, ok,
}
use adnacom_hotplug.Vpd.{Vpd, word, say, name_loop}
use adnacom_hotplug.Vpd.Items.{vpd_char, print_vpd_string}
use mathlib.Core.List.{append-nil, append_assoc}
use adnacom_hotplug.Vpd.Reads.{AreBytes, noted, after_read-came}

-- A read within the image yields its bytes, and any other fails.
unfoldable pub reads_of : List ℕ → ℕ → ℕ → Option (List ℕ)
reads_of image at len =
    if leb (at + len) (length image) then some (take len (drop at image)) else none

pub reads_of-inside :
    (image : List ℕ) (at len : ℕ)
    → at + len ≤ length image
    → reads_of image at len ≡ some (take len (drop at image))
unfolding reads_of
reads_of-inside image at len h =
    let inside : leb (at + len) (length image) ≡ true = ground arith in rw inside refl

-- The device reads bytes if its image is made of bytes.
pub reads_of-AreBytes :
    (image : List ℕ)
    → AreBytes image
    → (at len : ℕ) (buf : List ℕ) → reads_of image at len ≡ some buf
    → AreBytes buf
unfolding reads_of
reads_of-AreBytes image h at len buf e = elim (Bool-cases (leb (at + len) (length image))) [
  | inl inside ↦
      let same : some (take len (drop at image)) ≡ some buf = rw inside at e in
      let kept : take len (drop at image) ≡ buf = cc in
      subst AreBytes kept (AllOf-take _ len _ (AllOf-drop _ at image h))
  | inr outside ↦ cc
]

-- A character that is printed as it is.
abbrev pub IsShown : ℕ → Type 0
IsShown c = (32 ≤ c) × (c < 256) × (c ≢ 0x5c) × (c ≢ 127)

vpd_char-shown : (c : ℕ) (last : Bool) → IsShown c → vpd_char c last ≡ c ∷ []
unfolding vpd_char
vpd_char-shown c last h = ground arith

print_vpd_string-shown : (buf : List ℕ) → AllOf IsShown buf → print_vpd_string buf ≡ buf
unfolding print_vpd_string
print_vpd_string-shown [] h = refl
print_vpd_string-shown (c ∷ buf) h =
    rw (print_vpd_string-shown buf h.1, vpd_char-shown c _ h.0) refl

joined :
    (out name : List ℕ) (m n : ℕ)
    → AllOf IsShown name
    → word (m + n) ≡ m + n
    → (out ++ print_vpd_string (take n (drop m name))) ++ drop (word (m + n)) name
      ≡ out ++ drop m name
joined out name m n shown e =
    let part = take n (drop m name) in
    let same : print_vpd_string part ≡ part =
      print_vpd_string-shown part (AllOf-take _ n _ (AllOf-drop _ m name shown)) in
    rw (same, e, drop-add m n name)
      (append_assoc out part (drop n (drop m name))
        ∙ ap (λ r. out ++ r) (take-drop_all n (drop m name)))

-- A product name of which no character is altered is printed whole, chunk by chunk.
pub name_loop_lem :
    (vpd : ℕ → ℕ → Option (List ℕ)) (name : List ℕ) (a fuel part_pos : ℕ) (v : Vpd)
    → ((m n : ℕ) → m + n ≤ length name → vpd (a + m) n ≡ some (take n (drop m name)))
    → AllOf IsShown name
    → length name - part_pos < fuel
    → part_pos ≤ length name
    → a + length name ≤ 0x8000
    → (w : Vpd) × (name_loop vpd fuel a (length name) part_pos v ≡ ok w)
      × (w.out ≡ v.out ++ drop part_pos name)
unfolding name_loop say
name_loop_lem vpd name a zero part_pos v reads shown f p h = absurd (omega arith)
name_loop_lem vpd name a (suc fuel) part_pos v reads shown f p h =
    elim (Bool-cases (ltb part_pos (length name))) [
      | inr done ↦
          let rest : drop part_pos name ≡ [] = drop-all part_pos name (ground arith) in
          (v, rw done refl, rw rest (sym (append-nil v.out)))
      | inl more ↦
          let n : ℕ = length name in
          let part_len : ℕ = if ltb 256 (n - part_pos) then 256 else n - part_pos in
          let below : part_pos < n = ltb→lt part_pos n more in
          let sizes : (0 < part_len) × (part_pos + part_len ≤ n) = ground arith in
          let part : List ℕ = take part_len (drop part_pos name) in
          let v' : Vpd = say (print_vpd_string part) (noted (a + part_pos) part_len part v) in
          let (w, ends, out) =
            name_loop_lem vpd name a fuel (word (part_pos + part_len)) v' reads shown
              (omega (arith, sizes)) (omega (arith, sizes)) h in
          let step =
            after_read-came vpd (a + part_pos) part_len v ok
              (λ buf w.
                name_loop vpd fuel a n (word (part_pos + part_len)) (say (print_vpd_string buf) w))
              part (reads part_pos part_len sizes.1) in
          (
            w,
            rw more (step ∙ ends),
            out ∙ joined v.out name part_pos part_len shown (omega (arith, sizes)),
          )
    ]
