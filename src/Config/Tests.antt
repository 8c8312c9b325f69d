-- ===== src/Config/Tests.antt =====
-- loadConfig on a concrete environment.
use sol_gateway_dcc.Base.{none, some, ◌∷◌, codes, str_eq, ◌==◌, any, if◌then◌else◌}
use sol_gateway_dcc.Config.{Env}
use sol_gateway_dcc.Config.Returns.{required}

-- Every required variable, one of the asset's, and a smallest deposit that is no number.
abbrev misspelt : Env
misspelt key =
    if any (λ r. r == key) (codes "WSOL_ASSET_ID" ∷ required)
    then some (codes "x")
    else if key == codes "MIN_DEPOSIT"
    then some (codes "1e6")
    else none
