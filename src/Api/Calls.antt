-- ===== src/Api/Calls.antt =====
-- The calls of src/beetroot/api.py that change the state, as one type.
use beetroot.Prelude.{String, Bool, Option, Result}
use beetroot.Prelude.Actions.{Action, ◌>>=◌, return}
use beetroot.Dict.{Dict}
use beetroot.Registry.Backend.{ConfigClass}
use beetroot.Config.Schema.{InstanceConfig, Lifecycle}
use beetroot.Api.{Machine, World, Instance}
use beetroot.Api.Create.{create, register}
use beetroot.Api.Lifecycle.{destroy, reset, apply}

pub data Call (T : Type 0) : Type 0 where
  creation : String → Option String → Option InstanceConfig → Option Lifecycle → T → Call T
  registration : String → Option String → T → Call T
  application : Instance → Call T
  resetting : Instance → Bool → Result (Unit {0}) → Call T
  destruction : Instance → Bool → Result (Unit {0}) → Call T

module _ {T Text : Type 0} (m : Machine T Text) (classes : Dict ConfigClass) where
  unfoldable pub run : Call T → Action (World Text) (Unit {0})
  unfolding create register apply reset destroy
  run (creation name path cfg lifecycle now) = do
    inst ← create m classes name path cfg lifecycle now
    return tt
  run (registration path name now) = do inst ← register m classes path name now; return tt
  run (application inst) = do inst' ← apply m classes inst; return tt
  run (resetting inst confirmed down) = reset m classes inst confirmed down
  run (destruction inst confirmed down) = destroy m classes inst confirmed down
