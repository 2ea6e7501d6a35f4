-- ===== src/Config/Fetch.antt =====
-- `config_fetch` makes a range of configuration bytes present, and keeps the cache well formed.
use adnacom_hotplug.Common.{
  ℕ, ◌+◌, ◌^◌, ◌≤◌, ◌<◌, ◌≡◌, ◌⊎◌, refl, Bool, true, false, inl, inr, dec_lt, ==_iff, ◌∙◌, List,
  arith, length, ltb, ◌==◌, Bool-cases, ok, length-append, length-replicate, length-overwrite,
}
use adnacom_hotplug.Platform.{Platform, ReadsBlocks}
use adnacom_hotplug.Config.{
  Device, u32, is_present, skip_front, skip_back, resize, reserve, fill, config_fetch,
}
use adnacom_hotplug.Config.Ranges.{
  skip_front_end, skip_front_present, skip_back_le, skip_back_present, double_until_enough,
}
use adnacom_hotplug.Config.Buffers.{
  is_loaded, present_append, present-overwrite_in, present-overwrite_keep, present-overwrite_cases,
  loaded-append, loaded-overwrite_keep, loaded-overwrite_in,
}

-- Both buffers have the recorded size, and what is marked present has been written.
pub record IsCache (d : Device) : Type 0 where
  pub config_size : length d.config ≡ d.config_bufsize
  pub present_size : length d.present ≡ d.config_bufsize
  pub nonempty : 0 < d.config_bufsize
  pub in_range : d.config_bufsize < 2 ^ 32
  pub loaded : (i : ℕ) → is_present d.present i ≡ true → is_loaded d.config i ≡ true

-- Every byte of the range is present.
abbrev pub IsPresent : Device → ℕ → ℕ → Type 0
IsPresent d pos len = (i : ℕ) → pos ≤ i → i < pos + len → is_present d.present i ≡ true

-- What was present in the first device is present in the second, which is the same function.
pub record Extends (d e : Device) : Type 0 where
  pub same_dev : e.dev ≡ d.dev
  pub same_bridge : e.bridge ≡ d.bridge
  pub same_number : e.num_device ≡ d.num_device
  pub kept : (i : ℕ) → is_present d.present i ≡ true → is_present e.present i ≡ true

same_device : (d : Device) → Extends d d
same_device d = record { same_dev = refl; same_bridge = refl; same_number = refl; kept = λ i q. q }

Extends-trans : {d e f : Device} → Extends d e → Extends e f → Extends d f
Extends-trans x y = record {
  same_dev = y.same_dev ∙ x.same_dev;
  same_bridge = y.same_bridge ∙ x.same_bridge;
  same_number = y.same_number ∙ x.same_number;
  kept = λ i q. y.kept i (x.kept i q);
}

resize-IsCache :
    (d : Device) (size : ℕ)
    → IsCache d
    → d.config_bufsize ≤ size
    → size < 2 ^ 32
    → IsCache (resize d size) × Extends d (resize d size)
unfolding resize
resize-IsCache d size v h b = (
  record {
    config_size = omega (arith, length-append {0}, length-replicate {0}, v);
    present_size = omega (arith, length-append {0}, length-replicate {0}, v);
    nonempty = omega (arith, v);
    in_range = b;
    loaded = λ i q. loaded-append d.config _ i (v.loaded i (rw present_append at q));
  },
  record {
    same_dev = refl;
    same_bridge = refl;
    same_number = refl;
    kept = λ i q. rw present_append q;
  },
)

reserve-IsCache :
    (d : Device) (end : ℕ)
    → IsCache d
    → end ≤ 2 ^ 31
    → (e : Device) × (reserve d end ≡ ok e) × IsCache e × Extends d e × (end ≤ e.config_bufsize)
unfolding reserve resize
reserve-IsCache d end v h = elim (Bool-cases (ltb d.config_bufsize end)) [
  | inl more ↦
      let (s, r, p, q, w) =
        double_until_enough 32 end d.config_bufsize v.nonempty v.in_range h
          (omega (arith, v.nonempty)) in
      let (v', x) = resize-IsCache d s v q w in (resize d s, rw more (rw r), v', x, p)
  | inr enough ↦ (d, rw enough, v, same_device d, ground arith)
]

module _ (d : Device) (pos len : ℕ) (bytes : List ℕ) where
  -- A block that was read whole is present afterwards; a failed read marks nothing.
  fill-IsCache :
      (result : Bool)
      → IsCache d
      → pos + len ≤ d.config_bufsize
      → (result ≡ true → length bytes ≡ len)
      → IsCache (fill d pos len (result, bytes))
  unfolding fill
  fill-IsCache true v fits whole = record {
    config_size = omega (arith, length-overwrite {0}, v);
    present_size = omega (arith, length-overwrite {0}, v);
    nonempty = v.nonempty;
    in_range = v.in_range;
    loaded = λ i q. elim (present-overwrite_cases d.present pos len i q) [
      | inl old ↦ loaded-overwrite_keep d.config pos bytes i (v.loaded i old)
      | inr (lo, hi, b) ↦
          loaded-overwrite_in d.config pos bytes i lo (omega (arith, whole refl)) (omega (arith, v))
    ];
  }
  fill-IsCache false v fits whole = record {
    config_size = omega (arith, length-overwrite {0}, v);
    present_size = v.present_size;
    nonempty = v.nonempty;
    in_range = v.in_range;
    loaded = λ i q. loaded-overwrite_keep d.config pos bytes i (v.loaded i q);
  }

  fill-Extends : (result : Bool) → Extends d (fill d pos len (result, bytes))
  unfolding fill
  fill-Extends true = record {
    same_dev = refl;
    same_bridge = refl;
    same_number = refl;
    kept = λ i q. present-overwrite_keep d.present pos len i q;
  }
  fill-Extends false = record {
    same_dev = refl;
    same_bridge = refl;
    same_number = refl;
    kept = λ i q. q;
  }

fill-IsPresent :
    (d : Device) (pos len : ℕ) (read : Bool × List ℕ)
    → IsCache d
    → pos + len ≤ d.config_bufsize
    → read.0 ≡ true
    → IsPresent (fill d pos len read) pos len
unfolding fill
fill-IsPresent d pos len (true, bytes) v fits good i lo hi =
    present-overwrite_in d.present pos len i lo hi (omega (arith, v))
fill-IsPresent d pos len (false, bytes) v fits good i lo hi = cc

-- Each byte of the range is present already, or lies in what the trimming loops leave to read.
trimmed :
    (d : Device) (pos len i : ℕ)
    → pos + len < 2 ^ 32
    → pos ≤ i
    → i < pos + len
    → let (pos', len') = skip_front d pos len in
      (is_present d.present i ≡ true) ⊎ ((pos' ≤ i) × (i < pos' + skip_back d pos' len'))
trimmed d pos len i h lo hi =
    let (pos', len') = skip_front d pos len in
    let (same_end, later) = skip_front_end d pos len h in
    elim (dec_lt i pos') [
      | yes before ↦ inl (skip_front_present d pos len i h lo before)
      | no after ↦ elim (dec_lt i (pos' + skip_back d pos' len')) [
        | yes inside ↦ inr (omega arith, inside)
        | no past ↦ inl (skip_back_present d pos' len' i (omega arith) (omega arith) (omega arith))
      ]
    ]

module _ {H : Type 0} (p : Platform H) (reads : ReadsBlocks p) (h : H) where
  -- On a well-formed cache, with a range within the first 2^31 bytes and a library that reads blocks
  -- whole, `config_fetch` returns. It leaves a well-formed cache in which nothing that was present is
  -- lost, and if it reports success, then every byte of the range that was asked for is present.
  pub config_fetch-IsPresent :
      (d : Device) (pos len : ℕ)
      → IsCache d
      → pos + len ≤ 2 ^ 31
      → (result : Bool) × (e : Device) × (config_fetch p h d pos len ≡ ok (result, e))
        × IsCache e
        × Extends d e
        × (result ≡ true → IsPresent e pos len)
  unfolding config_fetch
  config_fetch-IsPresent d pos len v small =
      let (pos', len') = skip_front d pos len in
      let n = skip_back d pos' len' in
      let fewer = skip_back_le d pos' len' in
      let (same_end, later) = skip_front_end d pos len (omega arith) in
      let word : u32 (pos + len) ≡ pos + len = omega arith in
      let parts = λ (i : ℕ). trimmed d pos len i (omega arith) in
      elim (Bool-cases (n == 0)) [
        | inl nothing ↦ (
          true,
          d,
          rw nothing,
          v,
          same_device d,
          λ _ i lo hi. elim (parts i lo hi) [
            | inl old ↦ old
            | inr (from, below) ↦ absurd (omega (arith, (==_iff n 0).0 nothing))
          ],
        )
        | inr some_left ↦
            let (e, r, v', x, fits) = reserve-IsCache d (pos + len) v small in
            let read = p.read_block h d.dev pos' n in
            let y = Extends-trans x (fill-Extends e pos' n read.1 read.0) in
            (
              read.0,
              fill e pos' n read,
              rw (some_left, word, r),
              fill-IsCache e pos' n read.1 read.0 v' (omega arith)
                  (λ good. reads.whole h _ _ _ good),
              y,
              λ good i lo hi. elim (parts i lo hi) [
                | inl old ↦ y.kept i old
                | inr (from, below) ↦
                    fill-IsPresent e pos' n read v' (omega arith) good i from below
              ],
            )
      ]
