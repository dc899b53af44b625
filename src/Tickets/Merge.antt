-- ===== src/Tickets/Merge.antt =====
-- Interleavings of streams.
use hopr_api.Prelude.{ℕ, suc, ◌+◌, ◌≡◌, refl, sym, ap, ◌∙◌, List, [], ◌∷◌, arith, length, All}

module _ {ℓ} {X : Type ℓ} where
  -- `ss'` is `ss` with the first item `x` of one of its streams taken.
  pub data Takes : List (List X) → X → List (List X) → Type ℓ where
    this : {x : X} {xs : List X} {ss : List (List X)} → Takes ((x ∷ xs) ∷ ss) x (xs ∷ ss)
    other :
        {s : List X} {x : X} {ss ss' : List (List X)} → Takes ss x ss' → Takes (s ∷ ss) x (s ∷ ss')

  -- The items of all streams, in an order in which a group may yield them.
  pub data Merges : List (List X) → List X → Type ℓ where
    ends : {ss : List (List X)} → All (λ s. s ≡ []) ss → Merges ss []
    yields :
        {ss ss' : List (List X)} {x : X} {xs : List X}
        → Takes ss x ss'
        → Merges ss' xs
        → Merges ss (x ∷ xs)

  -- `s` is `t` with items left out.
  pub data Within : List X → List X → Type ℓ where
    empty : {t : List X} → Within [] t
    keep : {x : X} {s t : List X} → Within s t → Within (x ∷ s) (x ∷ t)
    skip : {x : X} {s t : List X} → Within s t → Within s (x ∷ t)

  abbrev pub total : List (List X) → ℕ
  total [] = 0
  total (s ∷ ss) = length s + total ss

  All-skip :
      (x : X) (xs : List X) (ss : List (List X))
      → All (λ s. Within s xs) ss
      → All (λ s. Within s (x ∷ xs)) ss
  All-skip x xs [] ws = ws
  All-skip x xs (s ∷ ss) (w, ws) = (skip w, All-skip x xs ss ws)

  Within-Takes :
      {ss ss' : List (List X)} {x : X} (xs : List X)
      → Takes ss x ss'
      → All (λ s. Within s xs) ss'
      → All (λ s. Within s (x ∷ xs)) ss
  Within-Takes xs this (w, ws) = (keep w, All-skip _ xs _ ws)
  Within-Takes xs (other t) (w, ws) = (skip w, Within-Takes xs t ws)

  All-ended : (ss : List (List X)) → All (λ s. s ≡ []) ss → All (λ s. Within s []) ss
  All-ended [] e = e
  All-ended (s ∷ ss) (e, es) = (rw e empty, All-ended ss es)

  -- Each stream's items come out in the order of that stream.
  pub Merges-Within :
      {ss : List (List X)} {out : List X} → Merges ss out → All (λ s. Within s out) ss
  Merges-Within (ends e) = All-ended _ e
  Merges-Within (yields {xs = xs} t m) = Within-Takes xs t (Merges-Within m)

  total_ended : (ss : List (List X)) → All (λ s. s ≡ []) ss → total ss ≡ 0
  total_ended [] e = refl
  total_ended (s ∷ ss) (e, es) = rw (e, total_ended ss es) refl

  total-Takes : {ss ss' : List (List X)} {x : X} → Takes ss x ss' → total ss ≡ suc (total ss')
  total-Takes this = omega arith
  total-Takes (other {s = s} t) = let h = total-Takes t in omega arith

  -- No item is lost and none comes twice.
  pub length-Merges : {ss : List (List X)} {out : List X} → Merges ss out → length out ≡ total ss
  length-Merges (ends e) = sym (total_ended _ e)
  length-Merges (yields t m) = ap suc (length-Merges m) ∙ sym (total-Takes t)

module _ {ℓ κ} {X : Type ℓ} where
  All-Takes :
      (P : X → Type κ) {ss ss' : List (List X)} {x : X}
      → Takes ss x ss'
      → All (All P) ss
      → P x × All (All P) ss'
  All-Takes P this ((p, ps), pss) = (p, (ps, pss))
  All-Takes P (other t) (ps, pss) = let h = All-Takes P t pss in (h.0, (ps, h.1))

  -- What holds of every item of the streams holds of every item that comes out.
  pub All-Merges :
      (P : X → Type κ) {ss : List (List X)} {out : List X}
      → Merges ss out
      → All (All P) ss
      → All P out
  All-Merges P (ends e) ps = tt
  All-Merges P (yields t m) ps = let h = All-Takes P t ps in (h.0, All-Merges P m h.1)

  pub All-Within : (P : X → Type κ) {s t : List X} → Within s t → All P t → All P s
  All-Within P empty ps = tt
  All-Within P (keep w) (p, ps) = (p, All-Within P w ps)
  All-Within P (skip w) (p, ps) = All-Within P w ps
