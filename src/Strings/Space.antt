-- ===== src/Strings/Space.antt =====
-- Fields.
use go_api_management.Base.{◌≡◌, refl, [], ◌∷◌, codes}
use go_api_management.Strings.{fields}

fields_runs : fields (codes "  Jane  Q Doe ") ≡ codes "Jane" ∷ codes "Q" ∷ codes "Doe" ∷ []
unfolding fields
fields_runs = refl
