-- ===== src/Kernel/Files/Tests.antt =====
-- The theorems on the table of files at a concrete table.
use project_r_core.Common.{ℕ, Option, none, some, List, [], ◌∷◌}
use project_r_core.Kernel.Files.{install}
use project_r_core.Kernel.Files.Table.{Installs, install-Installs}

-- Descriptor 1 is free.
abbrev table : List (Option ℕ)
table = some 70 ∷ none ∷ some 72 ∷ []

install-Installs_example : Installs 80 table (install 80 table).0 (install 80 table).1
install-Installs_example = install-Installs 80 table
