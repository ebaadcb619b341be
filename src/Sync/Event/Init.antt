-- ===== src/Sync/Event/Init.antt =====
-- The constructor and the destructor of the POSIX `IEvent`.
use prot.Prelude.{◌≡◌, Bool, true, false, ◌&&◌, if◌then◌else◌, none, some, arith}
use prot.Sync.Cond.{ok, held, nothing}
use prot.Sync.Event.{EventType, auto, manual, InitEnv, construct, destroy}

-- The constructor makes an event exactly if all the calls of the system succeed, with the given
-- state and the reset that its type asks for; together with the destructor it leaves no memory,
-- mutex, condition variable or attribute object behind, on any path.
pub construct_lem :
    (env : InitEnv) (event_type : EventType) (init_state : Bool)
    → let (r, calls) = construct env event_type init_state in
      let made = env.memory_ok && ok env.mutex_init && ok env.cond_init in
      let h = held (held nothing calls) (destroy r) in
      (r ≡ (
        if made
        then some (record {
          manual_reset = elim event_type [ auto ↦ false | manual ↦ true ];
          tick_clock = ok env.set_clock;
          state = init_state;
        })
        else none))
      × (h.memories ≡ 0)
      × (h.mutexes ≡ 0)
      × (h.conds ≡ 0)
      × (h.cond_attrs ≡ 0)
unfolding construct destroy
construct_lem env auto init_state = ground arith
construct_lem env manual init_state = ground arith
