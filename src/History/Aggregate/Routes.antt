-- ===== src/History/Aggregate/Routes.antt =====
-- The routes of trips and alerts in aggregateHistorySample, and the sets of routes and lines.
use typescript_starter.Common.{
  Bool, false, not, any, contains, contains-add, str_eq, ◌&&◌, ◌||◌, ◌≡◌, refl, ◌∙◌, inl, inr,
  Bool-cases, arith, String, Option, none, some, List, [], ◌∷◌, add, or_else, is_some,
  if◌then◌else◌, ◌>>=◌,
}
use typescript_starter.Common.Dict.{Dict, lookup, insert}
use typescript_starter.History.Feed.{TripUpdate, InformedEntity}
use typescript_starter.History.LineIdentity.{truthy}

-- The route ids of the trip updates; a later update of a trip replaces an earlier one.
realtime_routes : Dict String → List TripUpdate → Dict String
realtime_routes routes [] = routes
realtime_routes routes (tu ∷ tus) =
    realtime_routes
      (elim (truthy tu.route_id) [ none ↦ routes | some route ↦ insert tu.trip_id route routes ])
      tus

-- The static routes of the trips that have none yet.
static_routes : Dict String → Dict String → Dict String
static_routes routes [] = routes
static_routes routes ((trip, route) ∷ rest) =
    static_routes (if is_some (lookup trip routes) then routes else insert trip route routes) rest

unfoldable pub trip_routes : List TripUpdate → Dict String → Dict String
unfolding realtime_routes static_routes
trip_routes tus trip_to_route_id = static_routes (realtime_routes [] tus) trip_to_route_id

abbrev add_some : Option String → List String → List String
add_some none set = set
add_some (some a) set = add a set

unfoldable pub add_all : List String → List String → List String
add_all [] set = set
add_all (a ∷ as') set = add_all as' (add a set)

pub contains-add_all :
    (trip : String) (xs found : List String)
    → contains trip (add_all xs found) ≡ (contains trip xs || contains trip found)
unfolding add_all
contains-add_all trip [] found = refl
contains-add_all trip (x ∷ xs) found =
    contains-add_all trip xs (add x found) ∙ rw (contains-add trip x found) (ground arith)

-- The text is there, not empty, and this one.
abbrev pub names : Option String → String → Bool
names none a = false
names (some b) a = not (str_eq b "") && str_eq b a

contains-add_some :
    (a : String) (o : Option String) (found : List String)
    → contains a (add_some (truthy o) found) ≡ (names o a || contains a found)
contains-add_some a none found = refl
contains-add_some a (some b) found = elim (Bool-cases (str_eq b "")) [
  | inl empty ↦ rw empty refl
  | inr given ↦ rw given (contains-add a b found)
]

module _ (stop_to_route_ids : Dict (List String)) (trip_to_route_id trip_route : Dict String) where
  entity_routes : InformedEntity → List String → List String
  unfolding add_all
  entity_routes entity set =
      let with_route = add_some (truthy entity.route_id) set in
      let trip = truthy entity.trip_id in
      let with_realtime = add_some (truthy (trip >>= λ t. lookup t trip_route)) with_route in
      let with_static = add_some (truthy (trip >>= λ t. lookup t trip_to_route_id)) with_realtime in
      add_all (or_else (truthy entity.stop_id >>= λ s. lookup s stop_to_route_ids) []) with_static

  entities_routes : List String → List InformedEntity → List String
  unfolding entity_routes
  entities_routes set [] = set
  entities_routes set (entity ∷ rest) = entities_routes (entity_routes entity set) rest

  unfoldable pub alert_routes : List InformedEntity → List String
  unfolding entities_routes
  alert_routes entities = entities_routes [] entities

  -- The entity names the route, or a trip whose route it is by the feed or by the schedule, or a
  -- stop which the route serves.
  abbrev pub mentions : String → InformedEntity → Bool
  mentions route entity =
      names entity.route_id route
      || (names (truthy entity.trip_id >>= λ t. lookup t trip_route) route
          || (names (truthy entity.trip_id >>= λ t. lookup t trip_to_route_id) route
              || contains route
                  (or_else (truthy entity.stop_id >>= λ s. lookup s stop_to_route_ids) [])))

  contains-entity_routes :
      (route : String) (entity : InformedEntity) (found : List String)
      → contains route (entity_routes entity found)
        ≡ (mentions route entity || contains route found)
  unfolding entity_routes
  contains-entity_routes route entity found =
      rw
        (
          contains-add_all route
              (or_else (truthy entity.stop_id >>= λ s. lookup s stop_to_route_ids) []) _,
          contains-add_some route (truthy entity.trip_id >>= λ t. lookup t trip_to_route_id) _,
          contains-add_some route (truthy entity.trip_id >>= λ t. lookup t trip_route) _,
          contains-add_some route entity.route_id found,
        )
        (ground arith)

  contains-entities_routes :
      (route : String) (found : List String) (entities : List InformedEntity)
      → contains route (entities_routes found entities)
        ≡ (any (mentions route) entities || contains route found)
  unfolding entities_routes
  contains-entities_routes route found [] = refl
  contains-entities_routes route found (entity ∷ rest) =
      contains-entities_routes route (entity_routes entity found) rest
      ∙ rw (contains-entity_routes route entity found) (ground arith)

  pub contains-alert_routes :
      (route : String) (entities : List InformedEntity)
      → contains route (alert_routes entities) ≡ any (mentions route) entities
  unfolding alert_routes
  contains-alert_routes route entities = contains-entities_routes route [] entities ∙ ground arith

-- The set of the lines of the routes.
unfoldable pub add_lines : (String → String) → List String → List String → List String
add_lines line_of lines [] = lines
add_lines line_of lines (route ∷ routes) = add_lines line_of (add (line_of route) lines) routes
