-- ===== src/Vpd/Reads.antt =====
-- What the decoder of vital product data keeps at each read (src/ls-vpd.c: read_vpd).
use adnacom_hotplug.Common.{
  AllOf, ◌≡◌, ◌≢◌, refl, ◌∙◌, ap, ℕ, zero, suc, ◌+◌, ◌%◌, ◌^◌, ◌<◌, ◌≤◌, Option, none, some, List,
  [], ◌∷◌, not, ◌==◌, ◌&&◌, ◌||◌, arith, Bool-cases, Option-cases, inl, inr,
}
use adnacom_hotplug.Common.Text.{Text}
use adnacom_hotplug.Vpd.{Vpd, VpdRead, say, add_bytes, byte_of, read_vpd, after_read}
use adnacom_hotplug.Vpd.Items.{VpdItem, find_item, vpd_items}

abbrev pub AreBytes : List ℕ → Type 0
AreBytes buf = AllOf (λ b. b < 256) buf

pub byte_of-lt : (buf : List ℕ) (i : ℕ) → AreBytes buf → byte_of buf i < 256
unfolding byte_of
byte_of-lt [] i h = omega arith
byte_of-lt (b ∷ buf) zero h = h.0
byte_of-lt (b ∷ buf) (suc i) h = byte_of-lt buf i h.1

-- The bytes of a read, and those of all reads, summed up.
abbrev pub sum : List ℕ → ℕ
sum [] = 0
sum (b ∷ buf) = b + sum buf

abbrev pub total : List VpdRead → ℕ
total [] = 0
total (r ∷ reads) = sum r.got + total reads

-- A read fits into the buffer of 256 bytes, and ends within the 2^15 bytes of the data; only a
-- single byte may lie directly behind them.
abbrev pub Fits : VpdRead → Type 0
Fits r = (r.len ≤ 256) × (r.at + r.len ≤ 0x8001) × (r.len ≢ 1 → r.at + r.len ≤ 0x8000)

pub record IsTidy (v : Vpd) : Type 0 where
  pub fits : AllOf Fits v.reads
  pub checks : v.csum ≡ total v.reads % 2 ^ 8

pub say-IsTidy : (t : Text) (v : Vpd) → IsTidy v → IsTidy (say t v)
unfolding say
say-IsTidy t v h = record { fits = h.fits; checks = h.checks }

add_bytes-sum : (c m : ℕ) (buf : List ℕ) → c ≡ m % 2 ^ 8 → add_bytes c buf ≡ (sum buf + m) % 2 ^ 8
unfolding add_bytes
add_bytes-sum c m [] h = omega arith
add_bytes-sum c m (b ∷ buf) h =
    add_bytes-sum ((c + b) % 2 ^ 8) (m + b) buf (omega arith)
    ∙ ap (λ (n : ℕ). n % 2 ^ 8) (omega arith)

-- The state after a read that brought bytes.
abbrev pub noted : ℕ → ℕ → List ℕ → Vpd → Vpd
noted at len buf v = record v {
  csum = add_bytes v.csum buf;
  reads = record { at = at; len = len; got = buf } ∷ v.reads;
}

module _ (vpd : ℕ → ℕ → Option (List ℕ)) (at len : ℕ) (v : Vpd) where
  read_vpd-failed :
      vpd at len ≡ none
      → read_vpd vpd at len v
        ≡ (none, record v { reads = record { at = at; len = len; got = [] } ∷ v.reads })
  unfolding read_vpd
  read_vpd-failed e = rw (e, read_vpd) refl

  read_vpd-came :
      (buf : List ℕ)
      → vpd at len ≡ some buf
      → read_vpd vpd at len v ≡ (some buf, noted at len buf v)
  unfolding read_vpd
  read_vpd-came buf e = rw (e, read_vpd) refl

  pub after_read-came {ℓ} :
      {A : Type ℓ} (fail : Vpd → A) (done : List ℕ → Vpd → A) (buf : List ℕ)
      → vpd at len ≡ some buf
      → after_read vpd at len v fail done ≡ done buf (noted at len buf v)
  unfolding after_read
  after_read-came fail done buf e = rw (read_vpd-came buf e) refl

module _ (vpd : ℕ → ℕ → Option (List ℕ))
    (bytes : (at len : ℕ) (buf : List ℕ) → vpd at len ≡ some buf → AreBytes buf) where
  pub after_read_lem {ℓ} :
      {A : Type ℓ} (Q : A → Type 0) (at len : ℕ) (v : Vpd) (fail : Vpd → A)
      (done : List ℕ → Vpd → A)
      → Fits (record { at = at; len = len; got = [] })
      → IsTidy v
      → ((w : Vpd) → IsTidy w → Q (fail w))
      → ((buf : List ℕ) (w : Vpd) → AreBytes buf → IsTidy w → Q (done buf w))
      → Q (after_read vpd at len v fail done)
  unfolding after_read
  after_read_lem Q at len v fail done f h k j = elim (Option-cases (vpd at len)) [
    | inl failed ↦
        rw (read_vpd-failed vpd at len v failed)
          (k _ (record { fits = (f, h.fits); checks = omega (arith, h.checks) }))
    | inr (buf, came) ↦ rw (read_vpd-came vpd at len v buf came) (
        j buf _ (bytes at len buf came) (record {
          fits = (f, h.fits);
          checks = add_bytes-sum v.csum (total v.reads) buf h.checks;
        }))
  ]

-- The table ends with an entry that fits every identifier.
abbrev IsEnded : List VpdItem → Type 0
IsEnded [] = ⊥
IsEnded (i ∷ []) = (i.id1 ≡ 0) × (i.id2 ≡ 0)
IsEnded (i ∷ j ∷ items) = IsEnded (j ∷ items)

find_item-ended :
    (items : List VpdItem) (a b : ℕ)
    → IsEnded items
    → (i : VpdItem) × (find_item items a b ≡ some i)
unfolding find_item
find_item-ended [] a b h = absurd h
find_item-ended (i ∷ []) a b h = (i, ground arith)
find_item-ended (i ∷ j ∷ items) a b h =
    let (k, e) = find_item-ended (j ∷ items) a b h in
    elim (Bool-cases
      (not (i.id1 == 0) && not (i.id1 == a) || not (i.id2 == 0) && not (i.id2 == b))) [
        | inl t ↦ (k, rw t e)
        | inr t ↦ (i, rw t refl)
      ]

pub find_item-found : (a b : ℕ) → (i : VpdItem) × (find_item vpd_items a b ≡ some i)
unfolding vpd_items
find_item-found a b = find_item-ended vpd_items a b (refl, refl)
