-- ===== src/Tests/Players.antt =====
-- src/models/mod.rs and src/utils/mod.rs: the theorems on players and helpers at concrete inputs.
use matchmaker.Models.Player
use matchmaker.Models.Player.{Player, matched}
use matchmaker.Models.Player.Lifecycle.{call-Arrow, claims, call, Arrow, SamePerson}

abbrev anna : Player
anna = Player.new 7 1200 0

abbrev matched_anna : Player
matched_anna = record anna { state = matched }

call-Arrow_example :
    Arrow anna.state (call (claims 1 1700) anna).state × SamePerson anna (call (claims 1 1700) anna)
call-Arrow_example = call-Arrow (claims 1 1700) anna
