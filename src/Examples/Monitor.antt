-- ===== src/Examples/Monitor.antt =====
-- Thread 0 waits; thread 1 has taken the mutex and will notify it.
use lua_mtint.Base.{true, none, some}
use lua_mtint.Sync.Monitor.{Monitor, Stage, waiting, holding, go, fresh, outside}

abbrev waits : Monitor
waits = go 1 holding (record (go 0 waiting (go 0 Stage.counted (go 0 holding fresh))) {
  owner = some 1;
  waiting_counter = 1;
})

-- Thread 1 notifies twice, and unlocks the mutex.
abbrev notified : Monitor
notified = go 1 outside (record waits { owner = none; event = true })
