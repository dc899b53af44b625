-- ===== src/Node/Session.antt =====
-- src/node/session/server.rs: the request and the decision of a session's admission. `S` is the
-- type of session identifiers, `T` of targets.
use hopr_api.Prelude.{ℕ, Bool, Option, none, some, Result, ok, ◌≡◌, refl}

pub record IncomingSession {ℓ} (S T X : Type ℓ) : Type ℓ where
  pub id : S
  pub session : X
  pub target : T

pub record OfferedIncentivization : Type 0 where
  pub parts_per_ssa : ℕ
  pub shares_per_part : ℕ
  pub surplus_shares : ℕ
  pub quota_per_ssa : ℕ

pub record SessionAdmissionRequest {ℓ} (S T : Type ℓ) : Type ℓ where
  pub session_id : S
  pub target : T
  pub capabilities : ℕ
  pub offered : Option OfferedIncentivization

pub record SessionAdmissionDecision : Type 0 where
  pub enforce_pix : Option Bool
  pub pix_quota_range : Option (ℕ × ℕ)

abbrev pub new_offer : ℕ → ℕ → ℕ → ℕ → OfferedIncentivization
new_offer parts_per_ssa shares_per_part surplus_shares quota_per_ssa = record {
  parts_per_ssa = parts_per_ssa;
  shares_per_part = shares_per_part;
  surplus_shares = surplus_shares;
  quota_per_ssa = quota_per_ssa;
}

module _ {ℓ} {S T : Type ℓ} where
  abbrev pub new_request : S → T → ℕ → SessionAdmissionRequest S T
  new_request session_id target capabilities = record {
    session_id = session_id;
    target = target;
    capabilities = capabilities;
    offered = none;
  }

  abbrev pub with_offer :
      OfferedIncentivization → SessionAdmissionRequest S T → SessionAdmissionRequest S T
  with_offer offered request = record request { offered = some offered }

abbrev pub default_decision : SessionAdmissionDecision
default_decision = record { enforce_pix = none; pix_quota_range = none }

abbrev pub with_enforce_pix : Bool → SessionAdmissionDecision → SessionAdmissionDecision
with_enforce_pix enforce_pix d = record d { enforce_pix = some enforce_pix }

abbrev pub with_pix_quota_range : ℕ × ℕ → SessionAdmissionDecision → SessionAdmissionDecision
with_pix_quota_range quota_range d = record d { pix_quota_range = some quota_range }

-- The provided `admit`.
abbrev pub admit {ℓ} :
    {S T E : Type ℓ} → SessionAdmissionRequest S T → Result SessionAdmissionDecision E
admit request = ok default_decision

-- Setting one term of a decision leaves the other as it was, so that the order does not matter; and a
-- server that keeps the provided `admit` admits every session without terms.
pub decision_terms_lem {ℓ} :
    {S T E : Type ℓ} (enforce_pix : Bool) (quota_range : ℕ × ℕ) (d : SessionAdmissionDecision)
    (request : SessionAdmissionRequest S T)
    → (with_enforce_pix enforce_pix (with_pix_quota_range quota_range d)
        ≡ with_pix_quota_range quota_range (with_enforce_pix enforce_pix d))
      × ((with_enforce_pix enforce_pix d).pix_quota_range ≡ d.pix_quota_range)
      × ((with_pix_quota_range quota_range d).enforce_pix ≡ d.enforce_pix)
      × (admit {E = E} request ≡ ok (record { enforce_pix = none; pix_quota_range = none }))
decision_terms_lem enforce_pix quota_range d request = (refl, refl, refl, refl)
