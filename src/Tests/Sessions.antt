-- ===== src/Tests/Sessions.antt =====
-- The tests of src/node/session/server.rs. A session's identifier and its target are numbers.
use hopr_api.Prelude.{
  ℕ, ◌≡◌, refl, Bool, true, false, not, ◌&&◌, Option, ok, err, ◌==◌, is_some, is_some_and,
  if◌then◌else◌,
}
use hopr_api.Node.Session.{
  SessionAdmissionRequest, OfferedIncentivization, SessionAdmissionDecision, new_request, new_offer,
  with_offer, default_decision, with_enforce_pix, with_pix_quota_range, admit,
}

abbrev any_request : SessionAdmissionRequest ℕ ℕ
any_request = new_request 1 80 0

abbrev no_terms : SessionAdmissionDecision → Bool
no_terms d = not (is_some d.enforce_pix) && not (is_some d.pix_quota_range)

-- ProcessOnlyServer keeps the provided `admit`; an error is that of its type.
abbrev a_server_that_does_not_override_admit_imposes_no_terms : Bool
a_server_that_does_not_override_admit_imposes_no_terms = elim (admit {E = ℕ} any_request) [
  | ok d ↦ no_terms d
  | err e ↦ false
]

imposes_no_terms_passes : a_server_that_does_not_override_admit_imposes_no_terms ≡ true
imposes_no_terms_passes = refl

abbrev is_offer : OfferedIncentivization → Bool
is_offer o =
    o.parts_per_ssa == 8192
    && o.shares_per_part == 64
    && o.surplus_shares == 16
    && o.quota_per_ssa == 649363456

abbrev a_request_carries_an_offer_only_when_one_was_made : Bool
a_request_carries_an_offer_only_when_one_was_made =
    not (is_some any_request.offered)
    && is_some_and (with_offer (new_offer 8192 64 16 649363456) any_request).offered is_offer

carries_an_offer_passes : a_request_carries_an_offer_only_when_one_was_made ≡ true
carries_an_offer_passes = refl

-- 0b0010_1000
abbrev a_request_carries_the_capability_bits_verbatim : Bool
a_request_carries_the_capability_bits_verbatim =
    (new_request {S = ℕ} {T = ℕ} 1 80 40).capabilities == 40

carries_the_bits_passes : a_request_carries_the_capability_bits_verbatim ≡ true
carries_the_bits_passes = refl

abbrev is_range : ℕ → ℕ → Option (ℕ × ℕ) → Bool
is_range a b r = is_some_and r λ (x : ℕ × ℕ). x.0 == a && x.1 == b

abbrev is_set : Bool → Option Bool → Bool
is_set want b = is_some_and b λ x. if want then x else not x

abbrev each_term_set_leaves_the_others_untouched : Bool
each_term_set_leaves_the_others_untouched =
    let enforce_only = with_enforce_pix true default_decision in
    let quota_only = with_pix_quota_range (1, 2) default_decision in
    let both = with_pix_quota_range (3, 4) (with_enforce_pix false default_decision) in
    is_set true enforce_only.enforce_pix
    && not (is_some enforce_only.pix_quota_range)
    && not (is_some quota_only.enforce_pix)
    && is_range 1 2 quota_only.pix_quota_range
    && is_set false both.enforce_pix
    && is_range 3 4 both.pix_quota_range

leaves_the_others_passes : each_term_set_leaves_the_others_untouched ≡ true
leaves_the_others_passes = refl
