-- ===== src/Http/Routes.antt =====
-- What the code uses of `chi`: a route for a method and a path.
use go_api_management.Http.{Request, Handler}
use go_api_management.Base.{String, List, Bool, str_eq, codes, ◌&&◌, ◌∷◌, if◌then◌else◌, []}

abbrev pub is_route : String → String → Request → Bool
is_route method path r = str_eq r.method (codes method) && str_eq r.path (codes path)

-- The first route that fits, and else the router's own answer.
unfoldable pub route : {W : Type 0} → List ((Request → Bool) × Handler W) → Handler W → Handler W
route [] unrouted r sw = unrouted r sw
route ((fits, h) ∷ routes) unrouted r sw =
    let rest = route routes unrouted r sw in if fits r then h r sw else rest
