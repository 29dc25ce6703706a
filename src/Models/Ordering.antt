-- ===== src/Models/Ordering.antt =====
-- `ORDER BY priority DESC, created_at`, as the repositories of src/app/portfolio, src/app/signals and
-- src/app/admin read the watchlist; the table lists its items in the order of `created_at`.
use auto_invest_manager.Base.{List, [], ◌∷◌, ltb, if◌then◌else◌}
use auto_invest_manager.Models.Entities.{WatchlistItem}

-- In front of the first item of a priority that is not higher.
abbrev insert_item : WatchlistItem → List WatchlistItem → List WatchlistItem
insert_item x [] = x ∷ []
insert_item x (y ∷ ys) = if ltb x.priority y.priority then y ∷ insert_item x ys else x ∷ y ∷ ys

abbrev pub by_priority : List WatchlistItem → List WatchlistItem
by_priority [] = []
by_priority (x ∷ xs) = insert_item x (by_priority xs)
