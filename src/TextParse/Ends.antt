-- ===== src/TextParse/Ends.antt =====
-- gitdiff/text.go: the loop of `ParseTextChunk` ends.
use go_gitdiff.Base.{◌≢◌}
use go_gitdiff.Parser.{Parser, out_of_fuel, Parsed, failed}

-- A result that is not the end of the fuel.
abbrev Ends {ℓ} : {A : Type ℓ} → Parsed A → Type ℓ
Ends r = r ≢ failed out_of_fuel
