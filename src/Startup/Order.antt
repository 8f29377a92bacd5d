-- ===== src/Startup/Order.antt =====
-- What each call of a set-up needs of the calls before it.
use async_ping.Prelude.{ℕ, ◌≡◌, Bool, true, false, List, [], ◌∷◌, arith, ◌&&◌, ◌||◌, ◌==◌}
use async_ping.Startup.{
  Call, Env, init_pipe, init_raw_socket, init_worker, init_server, init_logger, set_timer_task,
  set_notify_event, do_run, pipe, event_base_new, getprotobyname, socket, get_rcvbuf_original,
  get_sndbuf_original, set_rcvbuf, set_sndbuf, get_rcvbuf_new, get_sndbuf_new,
  make_socket_nonblocking, add_sock_read_event, add_notify_event, evhttp_new, register_handlers,
  set_gencb, bind_socket, add_timer_event, add_try_resp_event, fopen, add_log_event,
  event_base_dispatch, pthread_exit,
}

-- The calls that make what a call works on: the protocol of a socket, the socket of its options, the
-- base of an event and of an evhttp, the end of a pipe or the file that an event's handler uses. The new size
-- of a buffer is read after it was set.
unfoldable pub needs : Call → List Call
needs socket = getprotobyname ∷ []
needs get_rcvbuf_original = socket ∷ []
needs get_sndbuf_original = socket ∷ []
needs set_rcvbuf = socket ∷ []
needs set_sndbuf = socket ∷ []
needs get_rcvbuf_new = socket ∷ set_rcvbuf ∷ []
needs get_sndbuf_new = socket ∷ set_sndbuf ∷ []
needs make_socket_nonblocking = socket ∷ []
needs add_sock_read_event = socket ∷ event_base_new ∷ []
needs add_notify_event = pipe ∷ event_base_new ∷ []
needs evhttp_new = event_base_new ∷ []
needs register_handlers = evhttp_new ∷ []
needs set_gencb = evhttp_new ∷ []
needs bind_socket = evhttp_new ∷ []
needs add_timer_event = event_base_new ∷ []
needs add_try_resp_event = pipe ∷ event_base_new ∷ []
needs add_log_event = pipe ∷ event_base_new ∷ fopen ∷ []
needs event_base_dispatch = event_base_new ∷ []
needs _ = []

abbrev pub number : Call → ℕ
number pipe = 0
number event_base_new = 1
number getprotobyname = 2
number socket = 3
number get_rcvbuf_original = 4
number get_sndbuf_original = 5
number set_rcvbuf = 6
number set_sndbuf = 7
number get_rcvbuf_new = 8
number get_sndbuf_new = 9
number make_socket_nonblocking = 10
number add_sock_read_event = 11
number add_notify_event = 12
number evhttp_new = 13
number register_handlers = 14
number set_gencb = 15
number bind_socket = 16
number add_timer_event = 17
number add_try_resp_event = 18
number fopen = 19
number add_log_event = 20
number event_base_dispatch = 21
number pthread_exit = 22

-- Whether a call is among the earlier ones and succeeded.
unfoldable pub succeeded : Env → List Call → Call → Bool
succeeded env [] c = false
succeeded env (d ∷ earlier) c = (number c == number d && env c) || succeeded env earlier c

unfoldable pub all_succeeded : Env → List Call → List Call → Bool
unfolding succeeded
all_succeeded env earlier [] = true
all_succeeded env earlier (c ∷ cs) = succeeded env earlier c && all_succeeded env earlier cs

-- Each call of the list has what it needs, behind the calls `earlier`.
unfoldable pub supplied : Env → List Call → List Call → Bool
unfolding needs all_succeeded
supplied env earlier [] = true
supplied env earlier (c ∷ cs) = all_succeeded env earlier (needs c) && supplied env (c ∷ earlier) cs

init_worker-supplied : (env : Env) → supplied env [] (do_run (init_worker env)) ≡ true
unfolding init_worker init_raw_socket init_pipe do_run supplied all_succeeded succeeded needs
init_worker-supplied env = ground arith

init_server-supplied : (env : Env) → supplied env [] (do_run (init_server env)) ≡ true
unfolding init_server init_pipe set_timer_task set_notify_event do_run supplied all_succeeded
    succeeded needs
init_server-supplied env = ground arith

init_logger-supplied : (env : Env) → supplied env [] (init_logger env).1 ≡ true
unfolding init_logger init_pipe supplied all_succeeded succeeded needs
init_logger-supplied env = ground arith

-- Whichever calls fail, a worker, the server and the logger make no call before each call that it
-- needs was made and succeeded: none works on a socket, a base, an evhttp, a pipe or a file that is
-- not there, and no event loop of a worker or of the server runs without a base.
pub do_run-supplied :
    (env : Env)
    → (supplied env [] (do_run (init_worker env)) ≡ true)
      × (supplied env [] (do_run (init_server env)) ≡ true)
      × (supplied env [] (init_logger env).1 ≡ true)
do_run-supplied env = (init_worker-supplied env, init_server-supplied env, init_logger-supplied env)
