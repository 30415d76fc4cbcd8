-- ===== src/Store/Allocator/WellFormed.antt =====
-- The invariant of the allocator, and that taking a sector or emptying one keeps it.
use skyblip.Base.{
  ℕ, ◌+◌, ◌^◌, ◌≤◌, ◌<◌, ◌≡◌, ◌≢◌, refl, ◌⊎◌, inl, inr, Bool, true, false, ◌||◌, arith, leb, ◌==◌,
  Bool-cases,
}
use skyblip.Store.Sector.{SectorOwner, no_owner, owner_known, SectorHeader}
use skyblip.Store.Allocator.{SectorAllocator, Spare, update, ring_of, configure, reset, is_none}
use skyblip.Store.Allocator.Moves.{
  take, vacate, quarantine, note_sector, release, note_erased, labelled_by,
}

-- A sector of a ring: its label is one of the counter's.
abbrev pub in_ring : SectorAllocator → ℕ → Bool
in_ring a c = owner_known (a.owner_of c)

pub record IsWellFormed (a : SectorAllocator) : Type 0 where
  -- The pool fits the arrays.
  pub pool : a.sector_count ≤ 512
  -- Labels start at one, never pass the counter, and never repeat.
  pub numbered :
      (c : ℕ)
      → c < a.sector_count
      → in_ring a c ≡ true
      → (0 < a.sequence_of c) × (a.sequence_of c ≤ a.sequence)
  pub distinct :
      (c d : ℕ)
      → c < a.sector_count
      → d < a.sector_count
      → in_ring a c ≡ true
      → in_ring a d ≡ true
      → a.sequence_of c ≡ a.sequence_of d
      → c ≡ d
  -- A spare is a free sector of the pool, and no other ring's.
  pub spare :
      (r : ℕ)
      → (a.spares r).reserved ≡ true
      → ((a.spares r).sector < a.sector_count) × (a.owner_of (a.spares r).sector ≡ 0)
  pub apart :
      (a.spares 0).reserved ≡ true
      → (a.spares 1).reserved ≡ true
      → (a.spares 0).sector ≢ (a.spares 1).sector
  pub two_rings : (r : ℕ) → 2 ≤ r → (a.spares r).reserved ≡ false
  pub clean : (r : ℕ) → (a.spares r).erased ≡ true → (a.spares r).reserved ≡ true
  -- The newest sector is one of the pool, and nothing is numbered before the first claim.
  pub newest_in : a.claimed ≡ true → a.newest < a.sector_count
  pub virgin : a.claimed ≡ false → a.sequence ≡ 0

pub configure-IsWellFormed :
    (count floor : ℕ) (a : SectorAllocator) → IsWellFormed (configure count floor a).0
unfolding configure reset
configure-IsWellFormed count floor a = record {
  pool = ground arith;
  numbered = λ c lt o. cc;
  distinct = λ c d p q o. cc;
  spare = λ r e. cc;
  apart = λ e. cc;
  two_rings = λ r l. refl;
  clean = λ r e. cc;
  newest_in = λ e. cc;
  virgin = λ e. refl;
}

-- No ring holds the sector back as its spare.
abbrev pub IsUnreserved : SectorAllocator → ℕ → Type 0
IsUnreserved a s = (r : ℕ) → (a.spares r).reserved ≡ true → (a.spares r).sector ≢ s

-- Taking a sector that no ring holds back.
pub take-IsWellFormed :
    (s : ℕ) (owner : SectorOwner) (session : ℕ) (a : SectorAllocator)
    → s < a.sector_count
    → IsUnreserved a s
    → a.sequence + 1 < 2 ^ 32
    → IsWellFormed a
    → IsWellFormed (take s owner session a)
unfolding take
take-IsWellFormed s owner session a lt held fits w = record {
  pool = w.pool;
  numbered = λ c l o. ground (arith, w.numbered c l);
  distinct = λ c d p q o o' e. ground (arith, w.distinct c d p q, w.numbered c p, w.numbered d q);
  spare = λ r e. ground (arith, w.spare r e, held r e);
  apart = w.apart;
  two_rings = w.two_rings;
  clean = w.clean;
  newest_in = λ e. lt;
  virgin = λ e. cc;
}

-- Emptying a sector, or setting it aside.
pub vacate-IsWellFormed :
    (s k : ℕ) (a : SectorAllocator)
    → owner_known k ≡ false
    → (k ≡ 0) ⊎ IsUnreserved a s
    → IsWellFormed a
    → IsWellFormed (vacate s k a)
vacate-IsWellFormed s k a unowned held w = record {
  pool = w.pool;
  numbered = λ c l o. ground (arith, w.numbered c l);
  distinct = λ c d p q o o' e. ground (arith, w.distinct c d p q, w.numbered c p, w.numbered d q);
  spare = λ r e. held_at r e held;
  apart = w.apart;
  two_rings = w.two_rings;
  clean = w.clean;
  newest_in = w.newest_in;
  virgin = w.virgin;
}
  where
    held_at :
        (r : ℕ)
        → (a.spares r).reserved ≡ true
        → (k ≡ 0) ⊎ IsUnreserved a s
        → ((a.spares r).sector < a.sector_count) × (update a.owner_of s k (a.spares r).sector ≡ 0)
    held_at r e (inl z) = ground (arith, w.spare r e)
    held_at r e (inr u) = ground (arith, w.spare r e, u r e)

-- A read label, for a sector that no ring holds back and a number that no other sector has.
pub note_sector-IsWellFormed :
    (s : ℕ) (h : SectorHeader) (a : SectorAllocator)
    → IsUnreserved a s
    → ((c : ℕ) → c < a.sector_count → in_ring a c ≡ true → a.sequence_of c ≢ h.sequence)
    → IsWellFormed a
    → IsWellFormed (note_sector s h a)
unfolding note_sector
note_sector-IsWellFormed s h a held new w =
    elim (Bool-cases (leb a.sector_count s || is_none h.owner)) [
      | inl out ↦ rw out w
      | inr in_pool ↦ elim (Bool-cases (h.sequence == 0)) [
        | inl zeroth ↦ rw (in_pool, zeroth) w
        | inr numbered ↦ rw (in_pool, numbered) (labelled in_pool numbered)
      ]
    ]
  where
    labelled :
        (leb a.sector_count s || is_none h.owner) ≡ false
        → (h.sequence == 0) ≡ false
        → IsWellFormed (labelled_by s h a)
    labelled i n = record {
      pool = w.pool;
      numbered = λ c l o. ground (arith, w.numbered c l, w.virgin);
      distinct = λ c d p q o o' e. ground (arith, w.distinct c d p q, new c p, new d q);
      spare = λ r e. ground (arith, w.spare r e, held r e);
      apart = w.apart;
      two_rings = w.two_rings;
      clean = w.clean;
      newest_in = λ e. ground (arith, w.newest_in);
      virgin = λ e. cc;
    }

pub quarantine-IsWellFormed :
    (s : ℕ) (a : SectorAllocator)
    → IsUnreserved a s
    → IsWellFormed a
    → IsWellFormed (quarantine s a)
unfolding quarantine
quarantine-IsWellFormed s a held w = elim (Bool-cases (leb a.sector_count s)) [
  | inl out ↦ rw out w
  | inr in_pool ↦ rw in_pool (vacate-IsWellFormed s 0xff a refl (inr held) w)
]

pub release-IsWellFormed :
    (owner : SectorOwner) (a : SectorAllocator) → IsWellFormed a → IsWellFormed (release owner a)
unfolding release
release-IsWellFormed no_owner a w = w
release-IsWellFormed owner a w = record {
  pool = w.pool;
  numbered = λ c l o. ground (arith, w.numbered c l);
  distinct = λ c d p q o o' e. ground (arith, w.distinct c d p q);
  spare = λ r e. ground (arith, w.spare r);
  apart = λ e f. ground (arith, w.apart);
  two_rings = λ r l. ground (arith, w.two_rings r l);
  clean = λ r e. ground (arith, w.clean r);
  newest_in = w.newest_in;
  virgin = w.virgin;
}

pub note_erased-IsWellFormed :
    (owner : SectorOwner) (a : SectorAllocator)
    → IsWellFormed a
    → IsWellFormed (note_erased owner a)
unfolding note_erased
note_erased-IsWellFormed owner a w = elim (Bool-cases (a.spares (ring_of owner)).reserved) [
  | inr none_held ↦ rw none_held w
  | inl held ↦ rw held record {
    pool = w.pool;
    numbered = w.numbered;
    distinct = w.distinct;
    spare = λ r e. ground (arith, w.spare r, w.spare (ring_of owner));
    apart = λ e f. ground (arith, w.apart);
    two_rings = λ r l. ground (arith, w.two_rings r l);
    clean = λ r e. ground (arith, w.clean r);
    newest_in = w.newest_in;
    virgin = w.virgin;
  }
]

-- What the counters of losses hold is nothing to the invariant.
pub lost-IsWellFormed :
    (f : ℕ → ℕ) (a : SectorAllocator)
    → IsWellFormed a
    → IsWellFormed (record a { lost_sectors_of = f })
lost-IsWellFormed f a w = record {
  pool = w.pool;
  numbered = w.numbered;
  distinct = w.distinct;
  spare = w.spare;
  apart = w.apart;
  two_rings = w.two_rings;
  clean = w.clean;
  newest_in = w.newest_in;
  virgin = w.virgin;
}

-- Nor is which sectors open a session.
pub start-IsWellFormed :
    (f : ℕ → Bool) (a : SectorAllocator)
    → IsWellFormed a
    → IsWellFormed (record a { session_start_of = f })
start-IsWellFormed f a w = record {
  pool = w.pool;
  numbered = w.numbered;
  distinct = w.distinct;
  spare = w.spare;
  apart = w.apart;
  two_rings = w.two_rings;
  clean = w.clean;
  newest_in = w.newest_in;
  virgin = w.virgin;
}

-- A ring may hold back a free sector of the pool that the other does not, and may give it up.
pub spares-IsWellFormed :
    (owner : SectorOwner) (s : Spare) (a : SectorAllocator)
    → (s.reserved ≡ true
        → (s.sector < a.sector_count) × (a.owner_of s.sector ≡ 0) × IsUnreserved a s.sector)
    → (s.erased ≡ true → s.reserved ≡ true)
    → IsWellFormed a
    → IsWellFormed (record a { spares = update a.spares (ring_of owner) s })
spares-IsWellFormed owner s a held erased w = record {
  pool = w.pool;
  numbered = w.numbered;
  distinct = w.distinct;
  spare = λ r e. ground (arith, w.spare r, held);
  apart = λ e f. ground (
    arith,
    w.apart,
    λ (h : s.reserved ≡ true). (held h).2 0,
    λ (h : s.reserved ≡ true). (held h).2 1,
  );
  two_rings = λ r l. ground (arith, w.two_rings r l);
  clean = λ r e. ground (arith, w.clean r);
  newest_in = w.newest_in;
  virgin = w.virgin;
}
