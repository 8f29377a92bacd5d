-- ===== src/Task.antt =====
-- src/Task.h and src/Task.cpp: a task, its two constructors, its response.
-- Json::Value is jsoncpp's: a constructor takes what its calls return, and a call that throws is
-- `none`. A response is the value that is printed by jsoncpp, before it is printed.
pub mod Construct
pub mod Servers
use Prim.Native.String.{String}
use async_ping.Prelude.{
  ℕ, zero, suc, ◌+◌, ◌%◌, ◌^◌, Bool, true, false, ◌&&◌, ◌||◌, not, Option, none, some, List, [],
  ◌∷◌, map, ltb, leb, ◌==◌, if◌then◌else◌, set,
}
use async_ping.Prelude.Int.{ℤ, pos, ltb_ℤ, ◌-ℤ◌}
use async_ping.Ping.{Ping, new_ping, uninited, is_success}

abbrev pub max_ping_per_task : ℕ
max_ping_per_task = 65536

pub record Task : Type 0 where
  pub prepare_error : Bool
  pub pre_error_code : ℕ
  pub timestamp : ℕ
  pub total_count : ℕ
  pub done_count : ℕ
  pub pings : List Ping

abbrev pub is_complete : Task → Bool
is_complete t = leb t.total_count t.done_count

-- `Task(int errorCode)`. The timestamp is not initialised: `raw`.
abbrev pub error_task : ℕ → ℕ → Task
error_task raw code = record {
  prepare_error = true;
  pre_error_code = code;
  timestamp = raw;
  total_count = 0;
  done_count = 0;
  pings = [];
}

-- What the calls on the request's body return: isObject(), get("timeout", 5).asInt(),
-- ["servers"].isNull(), .isArray(), .size() and [i].asString(). The body has fewer than 2 ^ 31
-- servers, so that `int size` holds their number.
pub record Body : Type 0 where
  pub is_object : Bool
  pub timeout : Option ℤ
  pub servers_null : Bool
  pub servers_array : Bool
  pub servers_size : ℕ
  pub server : ℕ → Option String

-- The constructor ends with a task, or by an exception of jsoncpp; `looping` means that the rounds
-- given to the loop over the servers ran out.
pub data Built (A : Type 0) : Type 0 where
  built : A → Built A
  threw : Built A
  looping : Built A

-- What the loop writes into entry `i` of the new array.
abbrev pub init_ping : ℕ → ℕ → String → ℤ → Ping
init_ping raw i ip limit = record (new_ping raw) {
  index = i;
  ip = ip;
  limit = limit;
  status = uninited;
}

abbrev pub new_pings : ℕ → ℕ → List Ping
new_pings raw zero = []
new_pings raw (suc n) = new_ping raw ∷ new_pings raw n

-- `for (unsigned short i = 0; i < size; i ++)`: the counter wraps at 2 ^ 16.
unfoldable pub fill_loop :
    (raw : ℕ) (server : ℕ → Option String) (limit : ℤ) (size fuel i : ℕ)
    → List Ping
    → Built (List Ping)
fill_loop raw server limit size zero i ps = looping
fill_loop raw server limit size (suc fuel) i ps = elim (ltb i size) [
  | false ↦ built ps
  | true ↦ elim (server i) [
    | none ↦ threw
    | some ip ↦
        fill_loop raw server limit size fuel ((i + 1) % 2 ^ 16)
          (set ps i (init_ping raw i ip limit))
  ]
]

abbrev pub with_pings : ℕ → ℕ → Built (List Ping) → Built Task
with_pings raw size (built ps) = built (record {
  prepare_error = false;
  pre_error_code = 0;
  timestamp = raw;
  total_count = size;
  done_count = 0;
  pings = ps;
})
with_pings raw size threw = threw
with_pings raw size looping = looping

-- `Task(JsonValue &jv)`, with `fuel` rounds for its loop.
unfoldable pub new_task : (raw fuel : ℕ) → Body → Built Task
unfolding fill_loop
new_task raw fuel body =
    if not body.is_object then built (error_task raw 1001) else elim body.timeout [
      | none ↦ threw
      | some limit ↦
          if not (ltb_ℤ (pos 0) limit)
          then built (error_task raw 1002)
          else if body.servers_null || not body.servers_array
          then built (error_task raw 1003)
          else if ltb max_ping_per_task body.servers_size
          then built (error_task raw 1004)
          else with_pings raw body.servers_size (
              fill_loop raw body.server limit body.servers_size fuel 0
                (new_pings raw body.servers_size))
    ]

-- One entry of "results": `lost` for a lossRate of 1.0, else 0; "avgRtt" in microseconds, where it
-- is given (the code prints thousandths of it).
pub record PingResult : Type 0 where
  pub ip : String
  pub lost : Bool
  pub avg_rtt : Option ℤ

pub record Response : Type 0 where
  pub success : Bool
  pub err_msg : String
  pub results : List PingResult

unfoldable pub error_msg : ℕ → String
error_msg code =
    if code == 1001
    then "payload invalid, json body is not an object"
    else if code == 1002
    then "payload invalid, timeout invalid"
    else if code == 1003
    then "payload invalid, servers invalid, null or not array"
    else if code == 1004
    then "payload invalid, servers overflow, too much servers in one request (capacity: 65536)"
    else if code == 1005
    then "too many tasks working, drop this task"
    else if code == 1006
    then "init task error, casuse varies, please check log"
    else "unknown error"

unfoldable pub ping_result : Ping → PingResult
ping_result p = record {
  ip = p.ip;
  lost = not (is_success p.status);
  avg_rtt = if is_success p.status then some (pos p.recvtime -ℤ pos p.sendtime) else none;
}

unfoldable pub build_response : Task → Response
unfolding error_msg ping_result
build_response t =
    if t.prepare_error
    then record { success = false; err_msg = error_msg t.pre_error_code; results = [] }
    else record { success = true; err_msg = ""; results = map ping_result t.pings }
