-- ===== src/Dfu/Update/Records.antt =====
-- The record of an update as bytes.
use skyblip.Base.{
  ℕ, ◌≤◌, ◌<◌, ◌≡◌, refl, ◌∙◌, sym, ap, ◌⊎◌, inl, inr, true, false, not, some, List, [], ◌∷◌, ◌++◌,
  ltb, if◌then◌else◌, length, arith, Bool-cases,
}
use skyblip.Dfu.Image.{ImageVersion, copied}
use skyblip.Dfu.Update.{UpdateRecord, image_hash, put_version, get_version, to_blob, from_blob}
use skyblip.Dfu.Update.Versions.{IsVersion}

-- What the firmware keeps: versions of their widths, and hashes of eight bytes or none.
pub record IsRecord (r : UpdateRecord) : Type 0 where
  pub from_fits : IsVersion r.from
  pub to_fits : IsVersion r.to
  pub hashes :
      ((r.hashed ≡ true) × (length r.from_hash ≡ 8) × (length r.to_hash ≡ 8))
      ⊎ ((r.hashed ≡ false) × (r.from_hash ≡ image_hash) × (r.to_hash ≡ image_hash))

-- A list of eight is its bytes one by one.
copied-eight : (h : List ℕ) → length h ≡ 8 → copied h 0 8 ≡ h
copied-eight (a ∷ b ∷ c ∷ d ∷ e ∷ f ∷ g ∷ h ∷ []) eight = refl
copied-eight (a ∷ b ∷ c ∷ d ∷ e ∷ f ∷ g ∷ h ∷ i ∷ t) eight = absurd (omega arith)
copied-eight _ eight = absurd (omega arith)

-- The two versions at the head of a record, whatever stands behind them.
versions-read :
    (a b : ImageVersion) (tail : List ℕ)
    → IsVersion a
    → IsVersion b
    → (get_version (put_version a ++ (put_version b ++ tail)) 0 ≡ a)
      × (get_version (put_version a ++ (put_version b ++ tail)) 8 ≡ b)
unfolding put_version get_version
versions-read a b tail v w = (ground (arith, v), ground (arith, w))

hashes-read :
    (a b : ImageVersion) (f t : List ℕ)
    → length f ≡ 8
    → length t ≡ 8
    → let blob = (put_version a ++ put_version b) ++ (copied f 0 8 ++ copied t 0 8) in
      (copied blob 16 8 ≡ f) × (copied blob 24 8 ≡ t)
unfolding put_version
hashes-read a b f t ef et = (copied-eight f ef, copied-eight t et)

-- The bytes of a record that fits.
blob_of : UpdateRecord → List ℕ
unfolding put_version
blob_of r =
    let versions = put_version r.from ++ put_version r.to in
    if not r.hashed then versions else versions ++ (copied r.from_hash 0 8 ++ copied r.to_hash 0 8)

abbrev bytes_of : UpdateRecord → ℕ
bytes_of r = if r.hashed then 32 else 16

hashed-read :
    (a b : ImageVersion) (f t : List ℕ)
    → IsVersion a
    → IsVersion b
    → length f ≡ 8
    → length t ≡ 8
    → from_blob ((put_version a ++ put_version b) ++ (copied f 0 8 ++ copied t 0 8))
      ≡ some (record { from = a; to = b; from_hash = f; to_hash = t; hashed = true })
unfolding from_blob put_version
hashed-read a b f t v w ef et =
    let (from, to) = versions-read a b (copied f 0 8 ++ copied t 0 8) v w in
    let (hf, ht) = hashes-read a b f t ef et in
    λ i. some (record { from = from i; to = to i; from_hash = hf i; to_hash = ht i; hashed = true })

unhashed-read :
    (a b : ImageVersion)
    → IsVersion a
    → IsVersion b
    → from_blob (put_version a ++ put_version b)
      ≡ some (record {
        from = a;
        to = b;
        from_hash = image_hash;
        to_hash = image_hash;
        hashed = false;
      })
unfolding from_blob put_version
unhashed-read a b v w =
    let (from, to) = versions-read a b [] v w in
    λ i. some (record {
      from = from i;
      to = to i;
      from_hash = image_hash;
      to_hash = image_hash;
      hashed = false;
    })

blob_of-read :
    (r : UpdateRecord)
    → IsRecord r
    → (length (blob_of r) ≡ bytes_of r) × (from_blob (blob_of r) ≡ some r)
unfolding blob_of put_version
blob_of-read r v = by_hashes v.hashes
  where
    by_hashes :
        ((r.hashed ≡ true) × (length r.from_hash ≡ 8) × (length r.to_hash ≡ 8))
          ⊎ ((r.hashed ≡ false) × (r.from_hash ≡ image_hash) × (r.to_hash ≡ image_hash))
        → (length (blob_of r) ≡ bytes_of r) × (from_blob (blob_of r) ≡ some r)
    by_hashes (inl (h, ef, et)) =
        let whole : blob_of r
            ≡ (put_version r.from ++ put_version r.to)
              ++ (copied r.from_hash 0 8 ++ copied r.to_hash 0 8) =
          rw h refl in
        (
          ap length whole ∙ rw h refl,
          ap from_blob whole
              ∙ hashed-read r.from r.to r.from_hash r.to_hash v.from_fits v.to_fits ef et
              ∙ λ i. some (record r { hashed = sym h i }),
        )
    by_hashes (inr (h, ef, et)) =
        let whole : blob_of r ≡ put_version r.from ++ put_version r.to = rw h refl in
        (
          ap length whole ∙ rw h refl,
          ap from_blob whole ∙ unhashed-read r.from r.to v.from_fits v.to_fits ∙ λ i.
              some (record r { hashed = sym h i; from_hash = sym ef i; to_hash = sym et i }),
        )

-- A record that the firmware keeps is written if the buffer holds it, 16 bytes without hashes and 32
-- with them, and reads back as it was; a buffer that is too small gets nothing.
pub from_blob-to_blob :
    (r : UpdateRecord) (capacity : ℕ)
    → IsRecord r
    → ((capacity < bytes_of r) × (to_blob r capacity ≡ []))
      ⊎ ((bytes_of r ≤ capacity)
          × (length (to_blob r capacity) ≡ bytes_of r)
          × (from_blob (to_blob r capacity) ≡ some r))
unfolding to_blob blob_of
from_blob-to_blob r capacity v = elim (Bool-cases (ltb capacity (bytes_of r))) [
  | inl small ↦ inl (ground arith, rw small refl)
  | inr room ↦
      let (l, e) = blob_of-read r v in
      let same : to_blob r capacity ≡ blob_of r = rw room refl in
      inr (ground arith, ap length same ∙ l, ap from_blob same ∙ e)
]
