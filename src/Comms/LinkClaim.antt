-- ===== src/Comms/LinkClaim.antt =====
-- firmware/core/comms/link_claim.h: one session at a time may hold the link's exclusive work.
use skyblip.Base.{ℕ, Bool, true, false, ◌&&◌, not, ◌==◌, if◌then◌else◌, ◌≡◌, ◌≢◌, arith}

pub record LinkClaim : Type 0 where
  pub holder : ℕ
  pub held : Bool

abbrev pub link_claim : LinkClaim
link_claim = record { holder = 0; held = false }

pub grant : ℕ → LinkClaim → LinkClaim × Bool
grant session_id c =
    let taken = if not c.held then record { holder = session_id; held = true } else c in
    (taken, taken.holder == session_id)

pub holds : ℕ → LinkClaim → Bool
holds session_id c = c.held && (c.holder == session_id)

abbrev pub release_all : LinkClaim → LinkClaim
release_all c = record { holder = 0; held = false }

pub release : ℕ → LinkClaim → LinkClaim
unfolding holds
release session_id c = if holds session_id c then release_all c else c

-- A grant is given exactly to the session that holds the claim afterwards, and while one holds it
-- every other session's grant is refused and changes nothing.
pub grant-holds : (s : ℕ) (c : LinkClaim) → (grant s c).1 ≡ holds s (grant s c).0
unfolding grant holds
grant-holds s c = ground arith

pub grant_refused : (s t : ℕ) (c : LinkClaim) → holds s c ≡ true → t ≢ s → grant t c ≡ (c, false)
unfolding grant holds
grant_refused s t c h ne = ground arith

pub holds-release :
    (s t : ℕ) (c : LinkClaim) → holds t (release s c) ≡ (if s == t then false else holds t c)
unfolding release holds
holds-release s t c = ground arith
