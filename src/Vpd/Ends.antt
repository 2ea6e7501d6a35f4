-- ===== src/Vpd/Ends.antt =====
-- The decoder of vital product data comes to an end (src/ls-vpd.c: cap_vpd).
use adnacom_hotplug.Common.{
  ◌≡◌, refl, ℕ, zero, suc, ◌+◌, ◌-◌, ◌<◌, ◌≤◌, Bool, true, false, Option, none, some, List, [],
  if◌then◌else◌, ltb, leb, ◌==◌, ◌||◌, arith, Bool-cases, ltb→lt, leb→le, inl, inr, Outcome, ok,
  ◌>>=◌, Returns, Returns-bind, Returns-value,
}
use adnacom_hotplug.Common.Text.{codes}
use adnacom_hotplug.Vpd.{
  Vpd, Header, stop, resource, show_field, word, addr_mask, say, byte_of, read_header, name_loop,
  read_field, fields_loop, show_resource, resources_loop, cap_vpd,
}
use adnacom_hotplug.Vpd.Items.{VpdItem, print_vpd_string, is_resvd}
use adnacom_hotplug.Vpd.Headers.{Advances, read_header-Advances}
use adnacom_hotplug.Vpd.Reads.{
  AreBytes, byte_of-lt, IsTidy, say-IsTidy, after_read_lem, find_item-found,
}

-- Where a loop may go on in a resource.
abbrev GoesOn : ℕ → ℕ → Option ℕ × Vpd → Type 0
GoesOn len part_pos (none, v) = IsTidy v
GoesOn len part_pos (some next, v) = (part_pos ≤ next) × (next ≤ len) × IsTidy v

go_on :
    (len part_pos : ℕ) (next : ℕ → Vpd → Outcome Vpd) (r : Option ℕ × Vpd)
    → GoesOn len part_pos r
    → ((n : ℕ) (w : Vpd) → part_pos ≤ n → n ≤ len → IsTidy w → Returns IsTidy (next n w))
    → Returns IsTidy (elim (r.0) [ none ↦ ok (r.1) | some n ↦ next n (r.1) ])
go_on len part_pos next (none, w) g k = g
go_on len part_pos next (some n, w) g k = k n w g.0 g.1 g.2

abbrev IsTidyAfter : Option ℕ × Vpd → Type 0
IsTidyAfter r = IsTidy (r.1)

go_on_if :
    (next : Vpd → Outcome (Option ℕ × Vpd)) (q : Bool × Vpd)
    → IsTidy (q.1)
    → ((w : Vpd) → IsTidy w → Returns IsTidyAfter (next w))
    → Returns IsTidyAfter (elim (q.0) [ false ↦ ok (none, q.1) | true ↦ next (q.1) ])
go_on_if next (false, w) u k = u
go_on_if next (true, w) u k = k w u

module _ (vpd : ℕ → ℕ → Option (List ℕ))
    (bytes : (at len : ℕ) (buf : List ℕ) → vpd at len ≡ some buf → AreBytes buf) where
  name_loop-Returns :
      (fuel a len part_pos : ℕ) (v : Vpd)
      → len - part_pos < fuel
      → a + len ≤ 0x8000
      → IsTidy v
      → Returns IsTidy (name_loop vpd fuel a len part_pos v)
  unfolding name_loop
  name_loop-Returns zero a len part_pos v f h t = absurd (omega arith)
  name_loop-Returns (suc fuel) a len part_pos v f h t = elim (Bool-cases (ltb part_pos len)) [
    | inr done ↦ rw done t
    | inl more ↦
        let below : part_pos < len = ltb→lt part_pos len more in
        let part_len : ℕ = if ltb 256 (len - part_pos) then 256 else len - part_pos in
        let sizes : (0 < part_len) × (part_pos + part_len ≤ len) × (part_len ≤ 256) =
          ground arith in
        rw more (
          after_read_lem vpd bytes (Returns IsTidy) (a + part_pos) part_len v ok
            (λ buf w.
              name_loop vpd fuel a len (word (part_pos + part_len)) (say (print_vpd_string buf) w))
            (omega (arith, sizes)) t (λ w u. u)
            (λ buf w b u.
              name_loop-Returns fuel a len (word (part_pos + part_len)) _ (omega (arith, sizes)) h
                (say-IsTidy _ w u)))
  ]

  show_field-Returns :
      (i : VpdItem) (a len part_pos : ℕ) (buf : List ℕ) (v : Vpd)
      → part_pos + byte_of buf 2 ≤ len
      → a + len ≤ 0x8000
      → AreBytes buf
      → IsTidy v
      → Returns (GoesOn len part_pos) (show_field vpd i a part_pos buf v)
  unfolding show_field
  show_field-Returns i a len part_pos buf v p h b t =
      let byte : byte_of buf 2 < 256 = byte_of-lt buf 2 b in
      after_read_lem vpd bytes (Returns (GoesOn len part_pos)) (a + part_pos)
        (if is_resvd i.format then 1 else byte_of buf 2) v (λ w. ok (none, w)) _ (ground arith) t
        (λ w u. u) (λ body w c u. (omega arith, omega arith, say-IsTidy _ w u))

  read_field-Returns :
      (a len part_pos : ℕ) (buf : List ℕ) (v : Vpd)
      → a + len ≤ 0x8000
      → AreBytes buf
      → IsTidy v
      → Returns (GoesOn len part_pos) (read_field vpd a len part_pos buf v)
  unfolding read_field
  read_field-Returns a len part_pos buf v h b t =
      elim (Bool-cases (ltb len (part_pos + byte_of buf 2))) [
        | inl over ↦ rw over t
        | inr within ↦
            let (i, found) = find_item-found (byte_of buf 0) (byte_of buf 1) in
            rw (within, found) (show_field-Returns i a len part_pos buf v (ground arith) h b t)
      ]

  fields_loop-Returns :
      (fuel a len part_pos : ℕ) (v : Vpd)
      → len - part_pos < fuel
      → a + len ≤ 0x8000
      → IsTidy v
      → Returns IsTidy (fields_loop vpd fuel a len part_pos v)
  unfolding fields_loop
  fields_loop-Returns zero a len part_pos v f h t = absurd (omega arith)
  fields_loop-Returns (suc fuel) a len part_pos v f h t =
      elim (Bool-cases (leb (part_pos + 3) len)) [
        | inr done ↦ rw done t
        | inl more ↦
            let room : part_pos + 3 ≤ len = leb→le (part_pos + 3) len more in
            rw more (
              after_read_lem vpd bytes (Returns IsTidy) (a + part_pos) 3 v ok _ (omega arith) t
                (λ w u. u)
                (λ buf w b u.
                  Returns-bind (GoesOn len (word (part_pos + 3))) IsTidy
                    (read_field vpd a len (word (part_pos + 3)) buf w) _
                    (read_field-Returns a len (word (part_pos + 3)) buf w h b u)
                    (λ r g.
                      go_on len (word (part_pos + 3)) (fields_loop vpd fuel a len) r g
                        (λ n x p q z. fields_loop-Returns fuel a len n x (omega arith) h z))))
      ]

  show_resource-Returns :
      (tag len a : ℕ) (v : Vpd)
      → a + len ≤ 0x8000
      → IsTidy v
      → Returns (λ r. IsTidy (r.1)) (show_resource vpd tag len a v)
  unfolding show_resource
  show_resource-Returns tag len a v h t = elim (Bool-cases (tag == 0x0f)) [
    | inl end ↦ rw end (say-IsTidy _ v t)
    | inr other ↦ rw other (elim (Bool-cases (tag == 0x82)) [
      | inl name ↦ rw name (
          Returns-bind IsTidy (λ r. IsTidy (r.1)) _ _
            (name_loop-Returns (len + 1) a len 0 _ (omega arith) h (say-IsTidy _ v t))
            (λ w u. say-IsTidy _ w u))
      | inr none_of ↦ rw none_of (elim (Bool-cases (tag == 0x90 || tag == 0x91)) [
        | inl fields ↦ rw fields (
            Returns-bind IsTidy (λ r. IsTidy (r.1)) _ _
              (fields_loop-Returns (len + 1) a len 0 _ (omega arith) h (say-IsTidy _ v t))
              (λ w u. u))
        | inr unknown ↦ rw unknown (say-IsTidy _ v t)
      ])
    ])
  ]

  next_resource :
      (a : ℕ) (next : ℕ → Vpd → Outcome (Option ℕ × Vpd)) (r : Header × Vpd)
      → Advances a r
      → ((n : ℕ) (w : Vpd) → a < n → IsTidy w → Returns IsTidyAfter (next n w))
      → Returns IsTidyAfter (elim (r.0) [
        | stop b ↦ ok (some b, r.1)
        | resource tag len b ↦ show_resource vpd tag len b (r.1) >>= λ q. elim (q.0) [
          | false ↦ ok (none, q.1)
          | true ↦ next (word (b + len)) (q.1)
        ]
      ])
  next_resource a next (stop b, v) t k = t
  next_resource a next (resource tag len b, v) t k =
      Returns-bind (λ q. IsTidy (q.1)) IsTidyAfter (show_resource vpd tag len b v) _
        (show_resource-Returns tag len b v t.1 t.2)
        (λ q u. go_on_if (next (word (b + len))) q u (λ w z. k _ w (omega (arith, t.0, t.1)) z))

  resources_loop-Returns :
      (fuel a : ℕ) (v : Vpd)
      → addr_mask + 1 - a < fuel
      → IsTidy v
      → Returns IsTidyAfter (resources_loop vpd fuel a v)
  unfolding resources_loop
  resources_loop-Returns zero a v f t = absurd (omega arith)
  resources_loop-Returns (suc fuel) a v f t = elim (Bool-cases (leb a addr_mask)) [
    | inr end ↦ rw end t
    | inl more ↦
        let inside : a ≤ addr_mask = leb→le a addr_mask more in
        rw more (
          next_resource a (resources_loop vpd fuel) (read_header vpd a v)
            (read_header-Advances vpd bytes a v inside t)
            (λ n w h u. resources_loop-Returns fuel n w (omega (arith, inside)) u))
  ]

  pub cap_vpd-Returns : (verbose : ℕ) → Returns IsTidy (cap_vpd vpd verbose)
  unfolding cap_vpd
  cap_vpd-Returns verbose =
      let begun : Vpd =
        say (codes "Vital Product Data\n") (record { csum = 0; out = []; reads = [] }) in
      let tidy : IsTidy begun = say-IsTidy _ _ (record { fits = tt; checks = refl }) in
      elim (Bool-cases (ltb verbose 2)) [
        | inl brief ↦ rw brief tidy
        | inr full ↦ rw full (
            Returns-bind IsTidyAfter IsTidy (resources_loop vpd (addr_mask + 2) 0 begun) _
              (resources_loop-Returns (addr_mask + 2) 0 begun (omega arith) tidy)
              (λ r u. say-IsTidy _ (r.1) u))
      ]

  -- If the reads yield bytes, then at every verbosity, and whichever reads fail, cap_vpd returns.
  -- Every read that it asked for fits into its buffer of 256 bytes and ends within the 2^15 bytes
  -- that can be addressed, but for single bytes directly behind them; and the checksum is the sum
  -- of all bytes that were read, modulo 256.
  pub cap_vpd_ends : (verbose : ℕ) → (v : Vpd) × (cap_vpd vpd verbose ≡ ok v) × IsTidy v
  cap_vpd_ends verbose = Returns-value IsTidy (cap_vpd vpd verbose) (cap_vpd-Returns verbose)
