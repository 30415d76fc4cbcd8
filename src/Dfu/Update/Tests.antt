-- ===== src/Dfu/Update/Tests.antt =====
-- Tests on two released versions.
use skyblip.Base.{
  ◌≡◌, ◌<◌, ◌≤◌, refl, ◌⊎◌, true, false, not, ◌&&◌, ◌==◌, ltb, if◌then◌else◌, none, some, [], ◌∷◌,
  arith,
}
use skyblip.Dfu.Image.{ImageVersion}
use skyblip.Dfu.Update.{
  same, older_if, compare_versions, version_refusal, format_version, parse_version, version_text,
  within_widest, outcome, UpdateRecord, SlotImage, landed, reverted, refused, is_image, image_hash,
}
use skyblip.Dfu.Update.Versions.{weight, compare_versions-weight, parse_version-format}

abbrev v1 : ImageVersion
v1 = record { major = 1; minor = 4; revision = 10; build = 20260 }

abbrev v2 : ImageVersion
v2 = record { major = 1; minor = 5; revision = 0; build = 7 }

-- "1.4.10+20260"
text_of_v1 :
    version_text v1
    ≡ b'1' ∷ b'.' ∷ b'4' ∷ b'.' ∷ b'1' ∷ b'0' ∷ b'+' ∷ b'2' ∷ b'0' ∷ b'2' ∷ b'6' ∷ b'0' ∷ []
unfolding format_version
text_of_v1 = refl

-- Without hashes, the versions tell a revert from a refusal.
abbrev to_v2 : UpdateRecord
to_v2 = record { from = v1; to = v2; from_hash = image_hash; to_hash = image_hash; hashed = false }

abbrev holding : ImageVersion → SlotImage
holding v = record { version = v; hash = image_hash; hashed = true }

outcomes :
    (outcome to_v2 (holding v2) none ≡ landed)
    × (outcome to_v2 (holding v1) (some (holding v2)) ≡ reverted)
    × (outcome to_v2 (holding v1) none ≡ refused)
unfolding outcome is_image
outcomes = (refl, refl, refl)

compare_versions-weight_example :
    (compare_versions v1 v2
      ≡ (if weight v1 == weight v2 then same else older_if (ltb (weight v1) (weight v2))))
    × (version_refusal v1 v2 false ≡ not false && ltb (weight v2) (weight v1))
compare_versions-weight_example =
    compare_versions-weight v1 v2 false
      (record {
        major_fits = omega arith;
        minor_fits = omega arith;
        revision_fits = omega arith;
        build_fits = omega arith;
      })
      (record {
        major_fits = omega arith;
        minor_fits = omega arith;
        revision_fits = omega arith;
        build_fits = omega arith;
      })

parse_version-format_example :
    (((14 < 14) ⊎ (within_widest v1 ≡ false)) × (format_version v1 14 ≡ none))
    ⊎ ((14 ≤ 14)
        × (within_widest v1 ≡ true)
        × (format_version v1 14 ≡ some (version_text v1))
        × (parse_version (version_text v1) ≡ some v1))
parse_version-format_example = parse_version-format v1 14
