-- ===== src/Chain/Tickets.antt =====
-- src/chain/tickets.rs: the values of outgoing tickets, and the errors of a redemption.
use hopr_api.Prelude.{
  ◌≡◌, refl, Option, none, some, Result, ok, err, ◌>>=◌, unwrap_or, is_some, ◌&&◌, false,
}

-- `T` is the type of verified tickets, `S` of the reason.
pub data TicketRedeemError {ℓ} (T S E : Type ℓ) : Type ℓ where
  rejected : T → S → TicketRedeemError T S E
  processing_error : T → E → TicketRedeemError T S E

module _ {ℓ} {P B E : Type ℓ} where
  -- `incoming` is what `incoming_ticket_values` returns; the configured values go first.
  unfoldable pub outgoing_ticket_values : Result (P × B) E → Option P → Option B → Result (P × B) E
  outgoing_ticket_values incoming (some wp) (some price) = ok (wp, price)
  outgoing_ticket_values incoming none (some price) = do values ← incoming; ok (values.0, price)
  outgoing_ticket_values incoming (some wp) none = do values ← incoming; ok (wp, values.1)
  outgoing_ticket_values incoming none none = incoming

  -- Each value is the configured one where there is one, else the incoming one; the chain's error
  -- comes through exactly where a value is missing.
  pub outgoing_ticket_values_lem :
      (incoming : Result (P × B) E) (wp : Option P) (price : Option B)
      → ((values : P × B)
          → incoming ≡ ok values
          → outgoing_ticket_values incoming wp price
            ≡ ok (unwrap_or wp values.0, unwrap_or price values.1))
        × ((e : E)
            → incoming ≡ err e
            → is_some wp && is_some price ≡ false
            → outgoing_ticket_values incoming wp price ≡ err e)
        × ((p : P) (b : B)
            → wp ≡ some p
            → price ≡ some b
            → outgoing_ticket_values incoming wp price ≡ ok (p, b))
  unfolding outgoing_ticket_values
  outgoing_ticket_values_lem incoming (some wp) (some price) =
      (λ v e. refl, λ e h f. cc, λ p b f g. cc)
  outgoing_ticket_values_lem (ok v) none (some price) = (λ v e. cc, λ e h f. cc, λ p b f g. cc)
  outgoing_ticket_values_lem (err e) none (some price) = (λ v e. cc, λ e h f. cc, λ p b f g. cc)
  outgoing_ticket_values_lem (ok v) (some wp) none = (λ v e. cc, λ e h f. cc, λ p b f g. cc)
  outgoing_ticket_values_lem (err e) (some wp) none = (λ v e. cc, λ e h f. cc, λ p b f g. cc)
  outgoing_ticket_values_lem (ok v) none none = (λ v e. e, λ e h f. h, λ p b f g. cc)
  outgoing_ticket_values_lem (err e) none none = (λ v e. e, λ e h f. h, λ p b f g. cc)
