-- ===== src/Examples/Callers.antt =====
-- The callers, nonces and vouches of the plane at concrete inputs.
use xmip_core_runtime.Base.{
  ℕ, ◌≡◌, ◌≤◌, refl, true, false, List, [], ◌∷◌, none, some, Text, codes, length, get, insert, ◌==◌,
  nat_eq, text_eq,
}
use xmip_core_runtime.Plane.Held.{
  Identity, Held, Holding, most, live, is_revoked, hold, held_again, room, keeps, drawn, proof,
  proof_at, proven,
}
use xmip_core_runtime.Plane.Callers.{Reach, start, later, holds, proven_admitted}
use xmip_core_runtime.Plane.Fresh.{
  Issued, found_by, taken, spend_each, spend, draw, issue_each, swept, issue,
}
use xmip_core_runtime.Plane.FreshLaws.{Proves, spend_once, spend-Proves}
use xmip_core_runtime.Plane.Vouches.{Vouch}

abbrev handle : ℕ
handle = 7

abbrev other : ℕ
other = 8

abbrev ann : Identity
ann = record { value = codes "ann"; proven = true }

abbrev ann_held : Held
ann_held = record { proof = record { identity = ann; leaf = none }; until = some 100; by = some 1 }

abbrev no_one : Holding
no_one = record { callers = []; revoked = [] }

abbrev with_ann : Holding
with_ann = record { callers = (7, ann_held) ∷ []; revoked = [] }

ann-holds : hold 10 (0 ∷ 7 ∷ []) ann (some 100) (some 1) none no_one ≡ some (with_ann, 7)
unfolding hold held_again room keeps drawn get insert
ann-holds = refl

ann-Reach : Reach with_ann
ann-Reach = later start (holds 10 (0 ∷ 7 ∷ []) ann (some 100) (some 1) none ann-holds)

ann-proven : proven 20 7 with_ann ≡ some ann
unfolding proven proof proof_at live get
ann-proven = refl

proven_admitted_example :
    (h : Held) × (get handle with_ann.callers ≡ some h)
    × (h.proof.identity ≡ ann)
    × (ann.proven ≡ true)
    × ((handle == 0) ≡ false)
    × (live 20 h ≡ true)
    × (is_revoked h.by with_ann.revoked ≡ false)
    × (length with_ann.callers ≤ most)
proven_admitted_example = proven_admitted 20 7 ann ann-Reach ann-proven

-- A nonce of 16 bytes.
abbrev nonce : Text
nonce = codes "0123456789abcdef"

abbrev most_issued : ℕ
most_issued = 65536

abbrev one : Issued
one = record { through = codes "relay"; listener = codes "leaf"; until = 30 }

abbrev issued : List (Text × Issued)
issued = (nonce, one) ∷ []

nonce_finds : (spend 10 (codes "relay") (nonce ∷ []) issued).0 ≡ some (codes "leaf")
unfolding spend spend_each found_by taken get
nonce_finds = refl

spend_once_example :
    (spend 12 (codes "relay") (nonce ∷ []) (spend 10 (codes "other") (nonce ∷ []) issued).1).0
    ≡ none
spend_once_example = spend_once 10 12 (codes "other") (codes "relay") (nonce ∷ []) issued nonce refl

spend-Proves_example : Proves 10 (codes "relay") (codes "leaf") (nonce ∷ []) issued
spend-Proves_example =
    spend-Proves 10 (codes "relay") (nonce ∷ []) issued (codes "leaf") nonce_finds

abbrev issued_now : Issued
issued_now = record { through = codes "relay"; listener = codes "leaf"; until = 30000000010 }

abbrev after_issue : List (Text × Issued)
after_issue = (nonce, one) ∷ (codes "0123456789ABCDEF", issued_now) ∷ []

nonce-issued :
    issue 10 (nonce ∷ codes "0123456789ABCDEF" ∷ []) (codes "relay") (codes "leaf") 1 issued
    ≡ some (after_issue, codes "0123456789ABCDEF" ∷ [])
unfolding issue issue_each swept draw get insert
nonce-issued = refl

abbrev first : Vouch
first = record { at = 3; handle = 11 }

abbrev again : Vouch
again = record { at = 3; handle = 12 }
