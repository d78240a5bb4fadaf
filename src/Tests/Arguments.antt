-- ===== src/Tests/Arguments.antt =====
-- Merges of command-line arguments.
use argocd_operator.Base.{String, List, [], ◌∷◌}

abbrev command : List String
command = "run" ∷ "--loglevel" ∷ "info" ∷ "--insecure" ∷ []
