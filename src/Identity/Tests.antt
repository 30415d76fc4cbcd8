-- ===== src/Identity/Tests.antt =====
-- Tests: a new unit's memory, which is the words themselves with one seed to draw.
use skyblip.Base.{◌<◌, ◌≡◌, refl, ap, ltb, if◌then◌else◌, some}
use skyblip.Base.Scans.{write}
use skyblip.Identity.KeySlots.{
  Words, Seed, Memory, complete, fill, current, current_below, settled, provision, erased_word,
}
use skyblip.Identity.KeySlots.Provisioned.{provision-complete}

abbrev ones : Seed
ones j = 1

abbrev flash : Memory Words
flash = record { read = λ w. some w; write = λ i v w. write w i v; draw = λ w. (w, some ones) }

abbrev new_unit : Words
new_unit i = erased_word

-- A unit with a seed in its first slot.
abbrev keyed : Words
keyed i = if ltb i 8 then 0x01010101 else erased_word

own_key : current keyed ≡ some 0
unfolding current current_below fill
own_key = refl

provisioned : provision flash keyed ≡ (keyed, some 0)
unfolding provision
provisioned = ap (settled flash keyed keyed) own_key

provision-complete_example :
    (0 < 4) × ((words : Words) × (flash.read keyed ≡ some words) × (fill words 0 ≡ complete))
provision-complete_example = provision-complete flash keyed keyed 0 provisioned
