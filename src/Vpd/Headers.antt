-- ===== src/Vpd/Headers.antt =====
-- The header of a resource of vital product data lies within the data (src/ls-vpd.c: cap_vpd).
use adnacom_hotplug.Common.{
  ◌≡◌, ℕ, ◌+◌, ◌-◌, ◌*◌, ◌/◌, ◌^◌, ◌<◌, ◌≤◌, Option, some, List, if◌then◌else◌, ltb, ◌==◌, bit_and,
  arith, Bool-cases, inl, inr,
}
use adnacom_hotplug.Vpd.{
  Vpd, Header, stop, resource, check_len, word, addr_mask, byte_of, large_header, read_header,
}
use adnacom_hotplug.Vpd.Reads.{AreBytes, IsTidy, after_read_lem}

-- The header names a resource behind its own start that ends within the data.
abbrev pub Advances : ℕ → Header × Vpd → Type 0
Advances a (stop b, v) = IsTidy v
Advances a (resource tag len b, v) = (a < b) × (b + len ≤ 0x8000) × IsTidy v

check_len-Advances :
    (a tag len b : ℕ) (v : Vpd) → a < b → IsTidy v → Advances a (check_len tag len b, v)
check_len-Advances a tag len b v h t = elim (Bool-cases (ltb (addr_mask + 1) (b + len))) [
  | inl far ↦ rw far t
  | inr near ↦ rw near (h, ground arith, t)
]

module _ (vpd : ℕ → ℕ → Option (List ℕ))
    (bytes : (at len : ℕ) (buf : List ℕ) → vpd at len ≡ some buf → AreBytes buf) where
  large_header-Advances :
      (tag a : ℕ) (v : Vpd) → a ≤ addr_mask → IsTidy v → Advances a (large_header vpd tag a v)
  unfolding large_header
  large_header-Advances tag a v h t = elim (Bool-cases (ltb (addr_mask + 1 - 3) a)) [
    | inl far ↦ rw far t
    | inr near ↦
        let fits : a + 3 ≤ 0x8000 = ground arith in
        rw near (
          after_read_lem vpd bytes (Advances a) (a + 1) 2 v (λ w. (stop a, w))
            (λ buf w. (check_len tag (byte_of buf 0 + byte_of buf 1 * 2 ^ 8) (word (a + 3)), w))
            (omega arith) t (λ w u. u)
            (λ buf w b u. check_len-Advances a tag _ (word (a + 3)) w (omega arith) u))
  ]

  pub read_header-Advances :
      (a : ℕ) (v : Vpd) → a ≤ addr_mask → IsTidy v → Advances a (read_header vpd a v)
  unfolding read_header
  read_header-Advances a v h t =
      after_read_lem vpd bytes (Advances a) a 1 v (λ w. (stop a, w))
        (λ buf w.
          let tag = byte_of buf 0 in
          if bit_and tag 0x80 == 0
          then (check_len (tag / 2 ^ 3) (bit_and tag 7) (word (a + 1)), w)
          else large_header vpd tag a w)
        (omega arith) t (λ w u. u)
        (λ buf w b u. elim (Bool-cases (bit_and (byte_of buf 0) 0x80 == 0)) [
          | inl small ↦ rw small (check_len-Advances a _ _ (word (a + 1)) w (omega arith) u)
          | inr large ↦ rw large (large_header-Advances (byte_of buf 0) a w h u)
        ])
