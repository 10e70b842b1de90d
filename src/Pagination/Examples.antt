-- ===== src/Pagination/Examples.antt =====
-- Listings of five rows.
use ai_project.Prelude.{ℕ, ◌≡◌, refl, List, [], ◌∷◌}
use ai_project.Pagination.{page_rows}

abbrev five : List ℕ
five = 10 ∷ 11 ∷ 12 ∷ 13 ∷ 14 ∷ []

third_page : page_rows 3 2 five ≡ 14 ∷ []
unfolding page_rows
third_page = refl
