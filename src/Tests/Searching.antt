-- ===== src/Tests/Searching.antt =====
-- A graph with a search that keeps the documentation of src/graph/traits.rs, for the theorems at
-- concrete inputs. Nodes are numbers, and the search goes through all walks of the length asked for.
use hopr_api.Prelude.{
  ℕ, zero, suc, ◌≡◌, refl, sym, ap, ◌∙◌, inl, inr, Bool, true, false, ◌&&◌, Option, none, some,
  List, [], ◌∷◌, ◌++◌, map, Memᴰ, length, nat_eq, ◌==◌, Bool-cases, if◌then◌else◌, arith,
}
use mathlib.Core.List.Memᴰ
use hopr_api.Float.{Float}
use hopr_api.Graph.Traits.{EdgeObservableRead}
use hopr_api.Graph.Function.{EdgeValueFn}
use hopr_api.Graph.Function.Discovery.{path_value}
use hopr_api.Graph.Search.{Route, Follows, arrived, follows, last_of, distinct, IsRoute}

module _ {ℓ} {A B : Type ℓ} where
  -- `flat_map`
  unfoldable pub in_each : (A → List B) → List A → List B
  in_each f [] = []
  in_each f (x ∷ xs) = f x ++ in_each f xs

  pub in_each_sound :
      (f : A → List B) (xs : List A) {y : B}
      → Memᴰ y (in_each f xs)
      → (x : A) × (Memᴰ x xs × Memᴰ y (f x))
  unfolding in_each
  in_each_sound f [] m = elim m [ ]
  in_each_sound f (x ∷ xs) m =
      let rest = in_each_sound f xs in
      elim (Memᴰ.append_cases (f x) m) [
        | inl h ↦ (x, (Memᴰ.head refl, h))
        | inr h ↦ let (z, (k, n)) = rest h in (z, (Memᴰ.tail k, n))
      ]

module _ {O : Type 0} (nodes : List ℕ) (edge : ℕ → ℕ → Option O) where
  abbrev Walk : Type 0
  Walk = List ℕ × List O

  abbrev stepped : ℕ → List Walk → Option O → List Walk
  stepped a walks none = []
  stepped a walks (some o) = map (λ w. (a ∷ w.0, o ∷ w.1)) walks

  -- The walks of so many edges from a node.
  unfoldable pub walks_from : ℕ → ℕ → List Walk
  walks_from zero a = (a ∷ [], []) ∷ []
  walks_from (suc n) a = in_each (λ b. stepped a (walks_from n b) (edge a b)) nodes

  abbrev pub IsWalk : ℕ → ℕ → Walk → Type 0
  IsWalk n a w = Follows edge w.0 w.1 × (length w.1 ≡ n) × ((rest : List ℕ) × (w.0 ≡ a ∷ rest))

  step_sound :
      (n a b : ℕ) (step : Option O) (walks : List Walk) (w : Walk)
      → edge a b ≡ step
      → ((v : Walk) → Memᴰ v walks → IsWalk n b v)
      → Memᴰ w (stepped a walks step)
      → IsWalk (suc n) a w
  step_sound n a b none walks w e each m = elim m [ ]
  step_sound n a b (some o) walks w e each m =
      let (v, k, same) = Memᴰ.of_map (λ (w : Walk). (a ∷ w.0, o ∷ w.1)) walks m in
      let (path, long, (rest, start)) = each v k in
      rw (← same) (rw start (follows e (rw start at path)), ap suc long, (v.0, refl))

  pub walks_sound : (n a : ℕ) (w : Walk) → Memᴰ w (walks_from n a) → IsWalk n a w
  unfolding walks_from
  walks_sound zero a w (Memᴰ.head e) = rw e (arrived, refl, ([], refl))
  walks_sound zero a w (Memᴰ.tail m) = elim m [ ]
  walks_sound (suc n) a w m =
      let (b, (k, h)) = in_each_sound (λ b. stepped a (walks_from n b) (edge a b)) nodes m in
      step_sound n a b (edge a b) (walks_from n b) w refl (walks_sound n b) h

module _ {F U : Type 0} ⦃f : Float F⦄ (nodes : List ℕ)
    (edge : ℕ → ℕ → Option (EdgeObservableRead F U))
    (v : EdgeValueFn F (EdgeObservableRead F U)) where
  -- The test that the walk is simple and ends at `to`, if given.
  abbrev is_taken : Option ℕ → List ℕ → Bool
  is_taken to [] = false
  is_taken none (a ∷ ns) = distinct (a ∷ ns)
  is_taken (some to) (a ∷ ns) = distinct (a ∷ ns) && (last_of a ns == to)

  abbrev priced : List ℕ → Option F → List (Route ℕ ℕ F)
  priced ns none = []
  priced ns (some r) = (ns, 0, r) ∷ []

  abbrev route_of : Option ℕ → List ℕ × List (EdgeObservableRead F U) → List (Route ℕ ℕ F)
  route_of to w = if is_taken to w.0 then priced w.0 (path_value v w.1) else []

  -- The routes of so many edges from a node.
  unfoldable pub routes_from : Option ℕ → ℕ → ℕ → List (Route ℕ ℕ F)
  routes_from to n from = in_each (route_of to) (walks_from nodes edge n from)

  priced_sound :
      (p : List ℕ) (value : Option F) (ns : List ℕ) (id : ℕ) (r : F)
      → Memᴰ (ns, id, r) (priced p value)
      → (ns ≡ p) × (value ≡ some r)
  priced_sound p none ns id r m = elim m [ ]
  priced_sound p (some q) ns id r (Memᴰ.head e) = (ap (λ t. t.0) e, ap (λ t. some t.2) (sym e))
  priced_sound p (some q) ns id r (Memᴰ.tail m) = elim m [ ]

  route_of_sound :
      (to : Option ℕ) (w : List ℕ × List (EdgeObservableRead F U)) (ns : List ℕ) (id : ℕ) (r : F)
      → Memᴰ (ns, id, r) (route_of to w)
      → (is_taken to ns ≡ true) × (ns ≡ w.0) × (path_value v w.1 ≡ some r)
  route_of_sound to w ns id r m = elim (Bool-cases (is_taken to w.0)) [
    | inl e ↦ let (a, b) = priced_sound w.0 (path_value v w.1) ns id r (rw e at m) in (rw a e, a, b)
    | inr e ↦ elim (rw e at m) [ ]
  ]

  routes_sound :
      (to : Option ℕ) (n from : ℕ) (ns : List ℕ) (id : ℕ) (r : F)
      → Memᴰ (ns, id, r) (routes_from to n from)
      → (is_taken to ns ≡ true)
        × ((rest : List ℕ) × (os : List (EdgeObservableRead F U)) × ((ns ≡ from ∷ rest)
              × Follows edge ns os
              × (length os ≡ n)
              × (path_value v os ≡ some r)))
  unfolding routes_from
  routes_sound to n from ns id r m =
      let (w, (k, h)) = in_each_sound (route_of to) (walks_from nodes edge n from) m in
      let (path, long, (rest, start)) = walks_sound nodes edge n from w k in
      let (taken, same, value) = route_of_sound to w ns id r h in
      (taken, (rest, w.1, (same ∙ start, rw (← same) at path, long, value)))

  taken_to :
      (to from : ℕ) (rest ns : List ℕ)
      → ns ≡ from ∷ rest
      → is_taken (some to) ns ≡ true
      → (distinct ns ≡ true) × (last_of from rest ≡ to)
  taken_to to from rest ns e h =
      let long : is_taken (some to) (from ∷ rest) ≡ true = rw e at h in
      rw e (ground (arith, long), ground (arith, long))

  taken_any : (ns : List ℕ) → is_taken none ns ≡ true → distinct ns ≡ true
  taken_any [] h = refl
  taken_any (a ∷ ns) h = h

  pub between_sound :
      (to n from : ℕ) (ns : List ℕ) (id : ℕ) (r : F)
      → Memᴰ (ns, id, r) (routes_from (some to) n from)
      → IsRoute edge v n from to ns r
  between_sound to n from ns id r m =
      let (taken, (rest, os, (start, path, long, value))) =
        routes_sound (some to) n from ns id r m in
      let (simple, last) = taken_to to from rest ns start taken in
      (rest, os, (start, last, simple, path, long, value))

  pub anywhere_sound :
      (n from : ℕ) (ns : List ℕ) (id : ℕ) (r : F)
      → Memᴰ (ns, id, r) (routes_from none n from)
      → (to : ℕ) × IsRoute edge v n from to ns r
  anywhere_sound n from ns id r m =
      let (taken, (rest, os, (start, path, long, value))) = routes_sound none n from ns id r m in
      (last_of from rest, (rest, os, (start, refl, taken_any ns taken, path, long, value)))

-- At most so many.
abbrev pub limit {ℓ} : {A : Type ℓ} → Option ℕ → List A → List A
limit none xs = xs
limit (some n) [] = []
limit (some zero) (x ∷ xs) = []
limit (some (suc n)) (x ∷ xs) = x ∷ limit (some n) xs

pub limited {ℓ} :
    {A : Type ℓ} {x : A} (most : Option ℕ) (xs : List A) → Memᴰ x (limit most xs) → Memᴰ x xs
limited none xs m = m
limited (some n) [] m = elim m [ ]
limited (some zero) (y ∷ xs) m = elim m [ ]
limited (some (suc n)) (y ∷ xs) (Memᴰ.head e) = Memᴰ.head e
limited (some (suc n)) (y ∷ xs) (Memᴰ.tail m) = Memᴰ.tail (limited (some n) xs m)
