-- ===== src/Accounts/Folding.antt =====
-- Letter case outside ASCII, as Rust and MariaDB treat it: `str::to_lowercase`, and the test
-- `LOWER(column)=:value` under the collation of the column.
use arcade_launcher_server.Base.{Bool, Text}
use arcade_launcher_server.Accounts.{Externals}

pub record Folding : Type 0 where
  pub accounts : Externals
  pub to_lowercase : Text → Text
  pub lower_is : (column value : Text) → Bool
