-- ===== src/Engine/Clock.antt =====
-- Actions that the methods share.
use simulation_ai.Prelude.{suc, String}
use simulation_ai.Json.{Value, obj}
use simulation_ai.Json.Dict.{put}
use simulation_ai.Result.{Result, ok, err, type_error}
use simulation_ai.Runtime.{Runtime}
use simulation_ai.Model.State.{SurfaceState}
use simulation_ai.Store.{Store}
use simulation_ai.Store.States.{load_state}
use simulation_ai.Exec.{Exec, reads}

-- `utc_now()`
unfoldable pub now : Runtime → Exec Store String
now rt w = (ok (rt.utc_now w.ticks), record w { ticks = suc w.ticks })

-- `self.current()`
unfoldable pub current : Exec Store SurfaceState
unfolding load_state
current = reads (load_state "HEAD")

-- `v[key] = item`
unfoldable pub put_item : Value → String → Value → Result Value
put_item (obj d) key item = ok (obj (put key item d))
put_item _ key item = err type_error
