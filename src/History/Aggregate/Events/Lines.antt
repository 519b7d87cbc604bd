-- ===== src/History/Aggregate/Events/Lines.antt =====
-- The lines of an alert, as aggregateHistorySample finds them: the set of the lines of its routes.
use typescript_starter.Common.{
  none, some, Bool, true, any, ◌⊎◌, ◌↔◌, subst, str_eq, eq_refl, contains-add, String, List, [],
  ◌∷◌, ◌++◌, false, ◌≡◌, refl, sym, ◌∙◌, arith, inl, inr, Bool-cases, contains, add, eq_iff,
  contains-append,
}
use typescript_starter.Common.Dict.{Dict}
use typescript_starter.History.Feed.{ServiceAlert}
use typescript_starter.History.LineIdentity.{resolve_line}
use typescript_starter.History.Aggregate.Routes.{
  add_lines, alert_routes, mentions, contains-alert_routes,
}
use typescript_starter.History.Aggregate.{SampleInput, alert_lines, or_network}

-- No text twice.
abbrev pub IsDistinct : List String → Type 0
IsDistinct [] = Unit
IsDistinct (x ∷ xs) = (contains x xs ≡ false) × IsDistinct xs

IsDistinct-concat :
    (xs : List String) (a : String)
    → contains a xs ≡ false
    → IsDistinct xs
    → IsDistinct (xs ++ a ∷ [])
IsDistinct-concat [] a h d = (refl, tt)
IsDistinct-concat (x ∷ xs) a h (fresh, d) = (
  contains-append x xs (a ∷ []) ∙ ground (arith, eq_iff a x, eq_iff x a),
  IsDistinct-concat xs a (ground arith) d,
)

IsDistinct-add : (a : String) (xs : List String) → IsDistinct xs → IsDistinct (add a xs)
IsDistinct-add a xs d = elim (Bool-cases (contains a xs)) [
  | inl old ↦ rw old d
  | inr new ↦ rw new (IsDistinct-concat xs a new d)
]

IsDistinct-add_lines :
    (line_of : String → String) (lines routes : List String)
    → IsDistinct lines
    → IsDistinct (add_lines line_of lines routes)
unfolding add_lines
IsDistinct-add_lines line_of lines [] d = d
IsDistinct-add_lines line_of lines (route ∷ routes) d =
    IsDistinct-add_lines line_of (add (line_of route) lines) routes
      (IsDistinct-add (line_of route) lines d)

module _ (line_of : String → String) where
  -- The line is that of a route of the list.
  abbrev pub IsLineOf : List String → String → Type 0
  IsLineOf routes line = (route : String) × (contains route routes ≡ true) × (line_of route ≡ line)

  add_lines-from :
      (line : String) (lines routes : List String)
      → contains line (add_lines line_of lines routes) ≡ true
      → IsLineOf routes line ⊎ (contains line lines ≡ true)
  unfolding add_lines
  add_lines-from line lines [] h = inr h
  add_lines-from line lines (route ∷ routes) h =
      elim (add_lines-from line (add (line_of route) lines) routes h) [
        | inl (later, has, at) ↦ inl (later, ground (arith, has), at)
        | inr added ↦ elim (Bool-cases (str_eq (line_of route) line)) [
          | inl same ↦ inl (route, rw (eq_refl route) refl, (eq_iff (line_of route) line).0 same)
          | inr other ↦
              inr (let h2 = rw (contains-add line (line_of route) lines, other) at added in h2)
        ]
      ]

  add_lines-keeps :
      (line : String) (lines routes : List String)
      → contains line lines ≡ true
      → contains line (add_lines line_of lines routes) ≡ true
  unfolding add_lines
  add_lines-keeps line lines [] h = h
  add_lines-keeps line lines (route ∷ routes) h =
      add_lines-keeps line (add (line_of route) lines) routes
        (contains-add line (line_of route) lines ∙ ground (arith, h))

  add_lines-has :
      (lines routes : List String) (route : String)
      → contains route routes ≡ true
      → contains (line_of route) (add_lines line_of lines routes) ≡ true
  unfolding add_lines
  add_lines-has lines [] route h = absurd (cc)
  add_lines-has lines (first ∷ routes) route h = elim (Bool-cases (str_eq first route)) [
    | inl same ↦ add_lines-keeps (line_of route) (add (line_of first) lines) routes (
        contains-add (line_of route) (line_of first) lines
        ∙ rw ((eq_iff first route).0 same, eq_refl (line_of route)) refl)
    | inr other ↦ add_lines-has (add (line_of first) lines) routes route (rw other at h)
  ]

or_network-IsDistinct : (lines : List String) → IsDistinct lines → IsDistinct (or_network lines)
or_network-IsDistinct [] d = (refl, tt)
or_network-IsDistinct (line ∷ lines) d = d

or_network-of_some :
    (line : String) (lines : List String) → contains line lines ≡ true → or_network lines ≡ lines
or_network-of_some line [] h = absurd (cc)
or_network-of_some line (first ∷ lines) h = refl

pub List-cases :
    {A : Type 0} (xs : List A) → (xs ≡ []) ⊎ ((x : A) × (rest : List A) × (xs ≡ x ∷ rest))
List-cases [] = inl refl
List-cases (x ∷ xs) = inr (x, xs, refl)

module _ (input : SampleInput) (routes : Dict String) where
  abbrev pub names_route : ServiceAlert → String → Bool
  names_route alert route =
      any (mentions input.stop_to_route_ids input.trip_to_route_id routes route)
        alert.informed_entities

  -- The lines of the routes that the alert names, each once, or else the whole network.
  abbrev pub AreLines : ServiceAlert → List String → Type 0
  AreLines alert lines =
      IsDistinct lines
      × ((line : String)
          → (contains line lines ≡ true) ↔ (
              ((route : String) × (names_route alert route ≡ true)
                × (resolve_line (some route) none input.route_metadata ≡ line))
              ⊎ (((route : String) → names_route alert route ≡ false) × (line ≡ "NETWORK"))))

  abbrev named : ServiceAlert → List String
  named alert =
      alert_routes input.stop_to_route_ids input.trip_to_route_id routes alert.informed_entities

  abbrev line_of : String → String
  line_of route = resolve_line (some route) none input.route_metadata

  named-routes :
      (alert : ServiceAlert) (route : String)
      → contains route (named alert) ≡ names_route alert route
  named-routes alert route =
      contains-alert_routes input.stop_to_route_ids input.trip_to_route_id routes route
        alert.informed_entities

  network-AreLines :
      (alert : ServiceAlert) (line : String)
      → named alert ≡ []
      → (contains line ("NETWORK" ∷ []) ≡ true) ↔ (
          ((route : String) × (names_route alert route ≡ true) × (line_of route ≡ line))
          ⊎ (((route : String) → names_route alert route ≡ false) × (line ≡ "NETWORK")))
  network-AreLines alert line empty =
      let nothing : (route : String) → names_route alert route ≡ false =
        λ route. sym (named-routes alert route) ∙ rw empty refl in
      (
        λ h. inr (nothing, sym ((eq_iff "NETWORK" line).0 (ground (arith, h)))),
        λ h. elim h [
          | inl (route, has, at) ↦ absurd (let e = nothing route in cc)
          | inr (all, network) ↦ rw network refl
        ],
      )

  routed-AreLines :
      (alert : ServiceAlert) (line first : String)
      → contains first (named alert) ≡ true
      → (contains line (add_lines line_of [] (named alert)) ≡ true) ↔ (
          ((route : String) × (names_route alert route ≡ true) × (line_of route ≡ line))
          ⊎ (((route : String) → names_route alert route ≡ false) × (line ≡ "NETWORK")))
  routed-AreLines alert line first some_route = (
    λ h. elim (add_lines-from line_of line [] (named alert) h) [
      | inl (route, has, at) ↦ inl (route, sym (named-routes alert route) ∙ has, at)
      | inr nowhere ↦ absurd (cc)
    ],
    λ h. elim h [
      | inl (route, has, at) ↦
          subst (λ l. contains l (add_lines line_of [] (named alert)) ≡ true) at
            (add_lines-has line_of [] (named alert) route (named-routes alert route ∙ has))
      | inr (all, network) ↦
          absurd (let e = sym some_route ∙ named-routes alert first ∙ all first in cc)
    ],
  )

  pub alert_lines-AreLines :
      (alert : ServiceAlert) → AreLines alert (alert_lines input routes alert)
  unfolding alert_lines
  alert_lines-AreLines alert = (
    or_network-IsDistinct _ (IsDistinct-add_lines line_of [] (named alert) tt),
    λ line. elim (List-cases (named alert)) [
      | inl empty ↦
          let none_added : add_lines line_of [] (named alert) ≡ [] =
            (unfold add_lines in rw empty refl) in
          rw none_added (network-AreLines alert line empty)
      | inr (first, rest, listed) ↦
          let has : contains first (named alert) ≡ true = rw (listed, eq_refl first) refl in
          rw
            (or_network-of_some (line_of first) (add_lines line_of [] (named alert))
              (add_lines-has line_of [] (named alert) first has))
            (routed-AreLines alert line first has)
    ],
  )
