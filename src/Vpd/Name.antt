-- ===== src/Vpd/Name.antt =====
-- What the decoder prints for data that hold a product name (src/ls-vpd.c: cap_vpd).
use adnacom_hotplug.Common.{
  drop-add, drop-length, take-drop_inside, AllOf, ◌≡◌, refl, ◌∙◌, ap, ℕ, suc, ◌+◌, ◌*◌, ◌/◌, ◌%◌,
  ◌^◌, ◌≤◌, Bool, true, false, Option, none, some, List, [], ◌∷◌, ◌++◌, if◌then◌else◌, ltb, leb,
  ◌==◌, bit_and, arith, length, take, drop, Outcome, ok, ◌>>=◌, length-append,
}
use adnacom_hotplug.Common.Text.{codes}
use adnacom_hotplug.Vpd.{
  Vpd, Header, stop, resource, check_len, word, addr_mask, say, byte_of, large_header, read_header,
  show_resource, resources_loop, cap_vpd,
}
use adnacom_hotplug.Vpd.Reads.{noted, after_read-came}
use adnacom_hotplug.Vpd.Image.{reads_of, reads_of-inside, IsShown, name_loop_lem}
use mathlib.Core.List.{append-nil, append_assoc}

module _ (vpd : ℕ → ℕ → Option (List ℕ)) (fuel a tag len b : ℕ) (v w w' : Vpd)
    (inside : leb a addr_mask ≡ true) (header : read_header vpd a v ≡ (resource tag len b, w)) where
  abbrev shown_next : Outcome (Bool × Vpd) → ℕ → Outcome (Option ℕ × Vpd)
  shown_next shows place = shows >>= λ r. elim (r.0) [
    | false ↦ ok (none, r.1)
    | true ↦ resources_loop vpd fuel place (r.1)
  ]

  abbrev next_of : Header × Vpd → Outcome (Option ℕ × Vpd)
  next_of r = elim (r.0) [
    | stop b ↦ ok (some b, r.1)
    | resource tag len b ↦ shown_next (show_resource vpd tag len b (r.1)) (word (b + len))
  ]

  -- A round of the outer loop, after which it goes on, and one that is the last.
  loop_on :
      show_resource vpd tag len b w ≡ ok (true, w')
      → resources_loop vpd (suc fuel) a v ≡ resources_loop vpd fuel (word (b + len)) w'
  unfolding resources_loop
  loop_on shows = rw inside (ap next_of header ∙ ap (λ r. shown_next r (word (b + len))) shows)

  loop_ends :
      show_resource vpd tag len b w ≡ ok (false, w')
      → resources_loop vpd (suc fuel) a v ≡ ok (none, w')
  unfolding resources_loop
  loop_ends shows = rw inside (ap next_of header ∙ ap (λ r. shown_next r (word (b + len))) shows)

end_of_line : codes "\n" ++ codes "\t\tEnd\n" ≡ codes "\n\t\tEnd\n"
unfolding codes
end_of_line = refl

-- A product name as a large resource, and the tag that ends the data.
abbrev pub name_image : List ℕ → List ℕ
name_image name = 0x82 ∷ length name % 256 ∷ length name / 256 ∷ (name ++ 0x78 ∷ [])

module _ (name : List ℕ) where
  length-name_image : length (name_image name) ≡ length name + 4
  length-name_image = omega (arith, length-append name (0x78 ∷ []))

  reads_of-name :
      (m n : ℕ)
      → m + n ≤ length name
      → reads_of (name_image name) (3 + m) n ≡ some (take n (drop m name))
  reads_of-name m n h =
      reads_of-inside (name_image name) (3 + m) n (omega (arith, length-name_image))
      ∙ ap some
          (ap (take n) (drop-add 3 m (name_image name)) ∙ take-drop_inside m n name (0x78 ∷ []) h)

  reads_of-end : reads_of (name_image name) (3 + length name) 1 ≡ some (0x78 ∷ [])
  reads_of-end =
      reads_of-inside (name_image name) (3 + length name) 1 (omega (arith, length-name_image))
      ∙ ap some
          (ap (take 1) (drop-add 3 (length name) (name_image name) ∙ drop-length name (0x78 ∷ [])))

  reads_of-tag : reads_of (name_image name) 0 1 ≡ some (0x82 ∷ [])
  reads_of-tag = reads_of-inside (name_image name) 0 1 (omega (arith, length-name_image))

  reads_of-length :
      reads_of (name_image name) 1 2 ≡ some (length name % 256 ∷ length name / 256 ∷ [])
  reads_of-length = reads_of-inside (name_image name) 1 2 (omega (arith, length-name_image))

  module _ (short : length name ≤ 0x7ffc) where
    check_name :
        check_len 0x82 (length name % 256 + length name / 256 * 2 ^ 8) 3
        ≡ resource 0x82 (length name) 3
    check_name =
        let whole : length name % 256 + length name / 256 * 2 ^ 8 ≡ length name = omega arith in
        let fits : ltb (addr_mask + 1) (3 + length name) ≡ false = ground arith in
        rw (whole, fits) refl

    check_end : check_len 0x0f 0 (word (3 + length name + 1)) ≡ resource 0x0f 0 (length name + 4)
    check_end =
        let place : word (3 + length name + 1) ≡ length name + 4 = omega arith in
        let fits : ltb (addr_mask + 1) (length name + 4 + 0) ≡ false = ground arith in
        rw (place, fits) refl

    -- The header of the name, and that of the end.
    name_header :
        (v : Vpd)
        → (w : Vpd) × (read_header (reads_of (name_image name)) 0 v
            ≡ (resource 0x82 (length name) 3, w))
          × (w.out ≡ v.out)
    unfolding read_header large_header byte_of
    name_header v =
        let image = reads_of (name_image name) in
        let lengths : List ℕ = length name % 256 ∷ length name / 256 ∷ [] in
        let v' = noted 0 1 (0x82 ∷ []) v in
        let w = noted 1 2 lengths v' in
        (
          w,
          after_read-came image 0 1 v (λ w. (stop 0, w))
                (λ buf w.
                  let tag = byte_of buf 0 in
                  if bit_and tag 0x80 == 0
                  then (check_len (tag / 2 ^ 3) (bit_and tag 7) (word (0 + 1)), w)
                  else large_header image tag 0 w)
                (0x82 ∷ []) reads_of-tag
              ∙ (after_read-came image 1 2 v' (λ w. (stop 0, w))
                    (λ buf w.
                      (check_len 0x82 (byte_of buf 0 + byte_of buf 1 * 2 ^ 8) (word (0 + 3)), w))
                    lengths reads_of-length
                  ∙ ap (λ h. (h, w)) check_name),
          refl,
        )

    end_header :
        (v : Vpd)
        → (w : Vpd) × (read_header (reads_of (name_image name)) (3 + length name) v
            ≡ (resource 0x0f 0 (length name + 4), w))
          × (w.out ≡ v.out)
    unfolding read_header byte_of
    end_header v =
        let image = reads_of (name_image name) in
        let w = noted (3 + length name) 1 (0x78 ∷ []) v in
        (
          w,
          after_read-came image (3 + length name) 1 v (λ w. (stop (3 + length name), w))
                (λ buf w.
                  let tag = byte_of buf 0 in
                  if bit_and tag 0x80 == 0
                  then (check_len (tag / 2 ^ 3) (bit_and tag 7) (word (3 + length name + 1)), w)
                  else large_header image tag (3 + length name) w)
                (0x78 ∷ []) reads_of-end
              ∙ ap (λ h. (h, w)) check_end,
          refl,
        )

    module _ (shown : AllOf IsShown name) where
      name_resource :
          (v : Vpd)
          → (w : Vpd) × (show_resource (reads_of (name_image name)) 0x82 (length name) 3 v
              ≡ ok (true, w))
            × (w.out ≡ ((v.out ++ codes "\t\tProduct Name: ") ++ name) ++ codes "\n")
      unfolding show_resource say
      name_resource v =
          let begun = say (codes "\t\tProduct Name: ") v in
          let (w, ends, out) =
            name_loop_lem (reads_of (name_image name)) name 3 (length name + 1) 0 begun
              reads_of-name shown (omega arith) (omega arith) (omega arith) in
          (say (codes "\n") w, rw ends refl, ap (λ t. t ++ codes "\n") out)

      name_resources :
          (fuel : ℕ) (v : Vpd)
          → (w : Vpd) × (resources_loop (reads_of (name_image name)) (suc (suc fuel)) 0 v
              ≡ ok (none, w))
            × (w.out
                ≡ (((v.out ++ codes "\t\tProduct Name: ") ++ name) ++ codes "\n")
                  ++ codes "\t\tEnd\n")
      unfolding show_resource say
      name_resources fuel v =
          let (v1, e1, o1) = name_header v in
          let (v2, e2, o2) = name_resource v1 in
          let (v3, e3, o3) = end_header v2 in
          let image = reads_of (name_image name) in
          let below : leb (3 + length name) addr_mask ≡ true = ground arith in
          let place : word (3 + length name) ≡ 3 + length name = omega arith in
          let w = say (codes "\t\tEnd\n") v3 in
          let first = loop_on image (suc fuel) 0 0x82 (length name) 3 v v1 v2 refl e1 e2 in
          let last =
            loop_ends image fuel (3 + length name) 0x0f 0 (length name + 4) v2 v3 w below e3 refl in
          (
            w,
            first ∙ (ap (λ (k : ℕ). resources_loop image (suc fuel) k v2) place ∙ last),
            ap (λ t. t ++ codes "\t\tEnd\n")
                (o3
                  ∙ (o2 ∙ ap (λ t. ((t ++ codes "\t\tProduct Name: ") ++ name) ++ codes "\n") o1)),
          )

      regroup :
          (((codes "Vital Product Data\n" ++ codes "\t\tProduct Name: ") ++ name) ++ codes "\n")
            ++ codes "\t\tEnd\n"
          ≡ codes "Vital Product Data\n"
            ++ (codes "\t\tProduct Name: " ++ (name ++ codes "\n\t\tEnd\n"))
      regroup = rw (← end_of_line) (simp append_assoc)

      -- For a product name of at most 0x7ffc characters, of which none is a control character or a
      -- backslash, behind its header and in front of the end tag, cap_vpd returns and has printed
      -- the name unaltered, if the verbosity is at least 2; it finds the end tag.
      pub cap_vpd-name :
          (verbose : ℕ)
          → 2 ≤ verbose
          → (v : Vpd) × (cap_vpd (reads_of (name_image name)) verbose ≡ ok v)
            × (v.out
                ≡ codes "Vital Product Data\n"
                  ++ (codes "\t\tProduct Name: " ++ (name ++ codes "\n\t\tEnd\n")))
      unfolding cap_vpd say
      cap_vpd-name verbose h =
          let begun : Vpd =
            say (codes "Vital Product Data\n") (record { csum = 0; out = []; reads = [] }) in
          let (w, ends, out) = name_resources 0x7fff begun in
          let full : ltb verbose 2 ≡ false = ground arith in
          (say [] w, rw (full, ends) refl, append-nil w.out ∙ (out ∙ regroup))
