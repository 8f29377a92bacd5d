-- ===== src/Startup.antt =====
-- How the threads set themselves up: `initWorker` and `initRawSocket` of src/TaskWorker.cpp,
-- `initServer` of src/HttpServer.cpp, `initLogger` of src/Log.cpp. A call of the system or of the
-- event library is an event in a trace, and the environment says which of them succeed.
pub mod Order
use async_ping.Prelude.{Bool, true, false, not, List, [], ◌∷◌, ◌++◌, if◌then◌else◌}

-- One constructor for each place of a call, named for the call and what is special to the place.
pub data Call : Type 0 where
  pipe event_base_new getprotobyname socket : Call
  get_rcvbuf_original get_sndbuf_original set_rcvbuf set_sndbuf get_rcvbuf_new get_sndbuf_new : Call
  make_socket_nonblocking add_sock_read_event add_notify_event : Call
  evhttp_new register_handlers set_gencb bind_socket add_timer_event add_try_resp_event : Call
  fopen add_log_event event_base_dispatch pthread_exit : Call

-- `true` for a call that succeeds, and the calls made.
abbrev pub Env : Type 0
Env = Call → Bool

-- A function's result with the calls that it made.
abbrev pub Init : Type 0
Init = Bool × List Call

-- A guard `if (the call fails) return false;` before the rest.
abbrev pub guarded : Env → Call → Init → Init
guarded env c rest = if not (env c) then (false, c ∷ []) else (rest.0, c ∷ rest.1)

-- A call whose result is not looked at, before the rest.
abbrev pub unguarded : Call → Init → Init
unguarded c rest = (rest.0, c ∷ rest.1)

-- A guard `if (!f()) return false;` for a function `f` of the source.
abbrev pub guarded_by : Init → Init → Init
guarded_by f rest = if not f.0 then (false, f.1) else (rest.0, f.1 ++ rest.1)

-- `initPipe`, of the worker, of the server and of the logger.
unfoldable pub init_pipe : Env → Init
init_pipe env = guarded env pipe (true, [])

unfoldable pub init_raw_socket : Env → Init
init_raw_socket env = guarded env getprotobyname (
    guarded env socket (
      guarded env get_rcvbuf_original (
        guarded env get_sndbuf_original (
          guarded env set_rcvbuf (
            guarded env set_sndbuf (
              guarded env get_rcvbuf_new (
                guarded env get_sndbuf_new (
                  unguarded make_socket_nonblocking
                    (unguarded add_sock_read_event (true, []))))))))))

unfoldable pub init_worker : Env → Init
unfolding init_pipe init_raw_socket
init_worker env = guarded_by (init_pipe env) (
    guarded env event_base_new
      (guarded_by (init_raw_socket env) (unguarded add_notify_event (true, []))))

-- `setTimerTask` and `setNotifyEvent`, whose results are not looked at.
unfoldable pub set_timer_task : Init
set_timer_task = unguarded add_timer_event (true, [])

unfoldable pub set_notify_event : Init
set_notify_event = unguarded add_try_resp_event (true, [])

unfoldable pub init_server : Env → Init
unfolding init_pipe set_timer_task set_notify_event
init_server env = guarded_by (init_pipe env) (
    guarded env event_base_new (
      guarded env evhttp_new (
        unguarded register_handlers (
          unguarded set_gencb
            (guarded env bind_socket (true, set_timer_task.1 ++ set_notify_event.1))))))

unfoldable pub init_logger : Env → Init
unfolding init_pipe
init_logger env =
    guarded env fopen
      (guarded_by (init_pipe env) (guarded env event_base_new (unguarded add_log_event (true, []))))

-- `doRun` of the worker and of the server: the event loop, or the thread's exit.
unfoldable pub do_run : Init → List Call
do_run init = if not init.0 then init.1 ++ pthread_exit ∷ [] else init.1 ++ event_base_dispatch ∷ []
