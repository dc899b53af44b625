-- ===== src/Prelude/Tests.antt =====
-- Boolean tests, the conditional, options and equality of opaque values.
use Prim.Native.Nat.{ℕ, compare, Ordering}
use mathlib.Core.Path.{◌≡◌, refl}
use mathlib.Core.Logic.{◌↔◌, ◌⊎◌, inl, inr}
use mathlib.Core.Bool.{Bool, true, false, not, ◌&&◌, ◌||◌}
use mathlib.Core.Option.{Option, none, some}
use native.Mathlib.Omega.{arith}

abbrev pub ltb : ℕ → ℕ → Bool
ltb a b = elim (compare a b) [ Ordering.lt ↦ true | _ ↦ false ]

abbrev pub leb : ℕ → ℕ → Bool
leb a b = elim (compare a b) [ Ordering.gt ↦ false | _ ↦ true ]

infix 50 ◌==◌
abbrev pub ◌==◌ : ℕ → ℕ → Bool
a == b = elim (compare a b) [ Ordering.eq ↦ true | _ ↦ false ]

infix 1 if◌then◌else◌
abbrev pub if◌then◌else◌ {ℓ} : {A : Type ℓ} → Bool → A → A → A
if true then x else y = x
if false then x else y = y

pub ==_iff : (a b : ℕ) → ((a == b) ≡ true) ↔ (a ≡ b)
==_iff a b = ground arith

-- Split on a computed value and keep the equation.
pub Bool-cases : (b : Bool) → (b ≡ true) ⊎ (b ≡ false)
Bool-cases true = inl refl
Bool-cases false = inr refl

pub Option-cases {ℓ} : {A : Type ℓ} (o : Option A) → (o ≡ none) ⊎ ((a : A) × (o ≡ some a))
Option-cases none = inl refl
Option-cases (some a) = inr (a, refl)

abbrev pub is_some {ℓ} : {A : Type ℓ} → Option A → Bool
is_some none = false
is_some (some a) = true

abbrev pub is_some_and {ℓ} : {A : Type ℓ} → Option A → (A → Bool) → Bool
is_some_and none p = false
is_some_and (some a) p = p a

abbrev pub unwrap_or {ℓ} : {A : Type ℓ} → Option A → A → A
unwrap_or none d = d
unwrap_or (some a) d = a

-- A statement about the value of an option, if there is one.
abbrev pub Every {ℓ κ} : {A : Type ℓ} → (A → Type κ) → Option A → Type κ
Every P none = Unit
Every P (some a) = P a

-- `PartialEq` of a type whose code is elsewhere (an address, a key, an identifier).
pub record Eq {ℓ} (A : Type ℓ) : Type ℓ where
  pub beq : A → A → Bool
  pub beq_iff : (a b : A) → (beq a b ≡ true) ↔ (a ≡ b)

instance abbrev pub nat_eq : Eq ℕ
nat_eq = record { beq = ◌==◌; beq_iff = ==_iff }

-- An unset bound of a selector selects every value.
abbrev pub matches {ℓ} : {A : Type ℓ} ⦃e : Eq A⦄ → Option A → A → Bool
matches none b = true
matches ⦃e⦄ (some a) b = e.beq b a

pub matches_iff {ℓ} :
    {A : Type ℓ} ⦃e : Eq A⦄ (bound : Option A) (b : A)
    → (matches bound b ≡ true) ↔ Every (λ a. b ≡ a) bound
matches_iff none b = (λ _. tt, λ _. refl)
matches_iff ⦃e⦄ (some a) b = e.beq_iff b a

-- Conjunction and disjunction of tests that decide statements.
pub and_iff {ℓ κ} :
    {P : Type ℓ} {Q : Type κ} (a b : Bool)
    → ((a ≡ true) ↔ P)
    → ((b ≡ true) ↔ Q)
    → ((a && b) ≡ true) ↔ (P × Q)
and_iff true b p q = (λ e. (p.0 refl, q.0 e), λ h. q.1 h.1)
and_iff false b p q = (λ e. cc, λ h. p.1 h.0)

pub if_not_iff {ℓ κ} :
    {P : Type ℓ} {Q : Type κ} (a b : Bool)
    → ((a ≡ true) ↔ P)
    → ((b ≡ true) ↔ Q)
    → ((if not a then false else b) ≡ true) ↔ (P × Q)
if_not_iff true b p q = (λ e. (p.0 refl, q.0 e), λ h. q.1 h.1)
if_not_iff false b p q = (λ e. cc, λ h. p.1 h.0)

pub guard_iff {ℓ κ} :
    {P : Type ℓ} {Q : Type κ} (g b : Bool)
    → ((not g ≡ true) ↔ P)
    → ((b ≡ true) ↔ Q)
    → ((if g then false else b) ≡ true) ↔ (P × Q)
guard_iff false b p q = (λ e. (p.0 refl, q.0 e), λ h. q.1 h.1)
guard_iff true b p q = (λ e. cc, λ h. p.1 h.0)

pub or_iff {ℓ κ} :
    {P : Type ℓ} {Q : Type κ} (a b : Bool)
    → ((a ≡ true) ↔ P)
    → ((b ≡ true) ↔ Q)
    → ((a || b) ≡ true) ↔ (P ⊎ Q)
or_iff true b p q = (λ e. inl (p.0 refl), λ h. refl)
or_iff false b p q = (λ e. inr (q.0 e), λ h. elim h [ inl x ↦ cc (p.1 x) | inr y ↦ q.1 y ])
