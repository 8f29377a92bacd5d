-- ===== src/HttpServer/Registry.antt =====
-- The paths of src/HttpServer.cpp: `registerHandler` before the server runs, `doRegister` when it
-- does, `generalHttpCallback` for what is left. Paths and handlers are numbers, and paths are in the
-- order of their numbers.
use native.Mathlib.Decide.{ℕ_discrete}
use async_ping.Prelude.{
  ℕ, ◌≡◌, ◌⊎◌, refl, Bool, true, false, Option, none, some, Option-cases, inl, inr, List, [], ◌∷◌,
  ◌++◌, arith, ltb, ◌==◌, if◌then◌else◌, ◌∙◌, ap,
}
use async_ping.Dictionary.{Dictionary, find, IsMap}
use async_ping.HttpResponse.{Sent, error}

-- `handlers.insert`: std::map keeps its keys in order, and an entry that is there.
unfoldable insert_in_order : ℕ → ℕ → Dictionary → Dictionary
insert_in_order k v [] = (k, v) ∷ []
insert_in_order k v ((j, u) ∷ m) =
    let rest = insert_in_order k v m in
    if ltb k j then (k, v) ∷ (j, u) ∷ m else if k == j then (j, u) ∷ m else (j, u) ∷ rest

-- The new map, and what the call returns.
unfoldable pub register_handler : Dictionary → (path handler : ℕ) → Dictionary × Bool
unfolding insert_in_order
register_handler handlers path handler = elim (find path handlers) [
  | some _ ↦ (handlers, false)
  | none ↦ (insert_in_order path handler handlers, true)
]

-- The calls of evhttp_set_cb, in order.
unfoldable pub do_register : Dictionary → List (ℕ × ℕ)
do_register [] = []
do_register ((path, handler) ∷ handlers) = (path, handler) ∷ do_register handlers

-- What is sent for a path without a handler.
unfoldable pub general_http_callback : ℕ → ℕ × Sent
general_http_callback req = (req, error 404 "Not Found")

-- `registerWorker`: `none` for a null pointer.
unfoldable pub register_worker : List ℕ → Option ℕ → List ℕ
register_worker workers none = workers
register_worker workers (some worker) = workers ++ worker ∷ []

-- A series of calls of `registerHandler` on a new server: the map, and what each returns.
unfoldable pub register_all : Dictionary → List (ℕ × ℕ) → Dictionary × List Bool
unfolding register_handler
register_all handlers [] = (handlers, [])
register_all handlers ((path, handler) ∷ calls) =
    let one = register_handler handlers path handler in
    let rest = register_all one.0 calls in (rest.0, one.1 ∷ rest.1)

-- The handler of the first call for a path.
unfoldable pub first_for : ℕ → List (ℕ × ℕ) → Option ℕ
first_for path [] = none
first_for path ((k, handler) ∷ calls) =
    let rest = first_for path calls in if path == k then some handler else rest

abbrev or_else : Option ℕ → Option ℕ → Option ℕ
or_else (some h) rest = some h
or_else none rest = rest

find-insert_in_order :
    (i k v : ℕ) (m : Dictionary)
    → find k m ≡ none
    → find i (insert_in_order k v m) ≡ (if i == k then some v else find i m)
unfolding find insert_in_order
find-insert_in_order i k v [] h = ground arith
find-insert_in_order i k v ((j, u) ∷ m) h = ground (arith, find-insert_in_order i k v m)

insert_in_order-IsMap :
    (k v : ℕ) (m : Dictionary) → IsMap m → find k m ≡ none → IsMap (insert_in_order k v m)
unfolding find insert_in_order
insert_in_order-IsMap k v [] u h = (refl, tt)
insert_in_order-IsMap k v ((j, x) ∷ m) u h =
    ground (arith, insert_in_order-IsMap k v m u.1, find-insert_in_order j k v m, u.0, u.1)

do_register-id : (m : Dictionary) → do_register m ≡ m
unfolding do_register
do_register-id [] = refl
do_register-id ((k, v) ∷ m) = ap (λ l. (k, v) ∷ l) (do_register-id m)

-- A later call for a path that is taken counts for nothing.
or_else-taken :
    (path k v h : ℕ) (o rest : Option ℕ)
    → o ≡ some h ⊎ (path == k) ≡ false
    → or_else o rest ≡ or_else o (if path == k then some v else rest)
or_else-taken path k v h (some x) rest e = refl
or_else-taken path k v h none rest (inl bad) = absurd (cc)
or_else-taken path k v h none rest (inr apart) = rw apart refl

-- A call for a free path is what the path has from then on.
or_else-fresh :
    (path k v : ℕ) (o rest : Option ℕ)
    → o ≡ none ⊎ (path == k) ≡ false
    → or_else (if path == k then some v else o) rest
      ≡ or_else o (if path == k then some v else rest)
or_else-fresh path k v none rest e = ground arith
or_else-fresh path k v (some x) rest (inl bad) = absurd (cc)
or_else-fresh path k v (some x) rest (inr apart) = rw apart refl

-- A key has the value that `find` gives, and the others differ from it.
at_or_apart :
    (path k : ℕ) (m : Dictionary) {o : Option ℕ}
    → find k m ≡ o
    → find path m ≡ o ⊎ (path == k) ≡ false
at_or_apart path k m h = elim (ℕ_discrete path k) [
  | yes e ↦ inl (ap (λ i. find i m) e ∙ h)
  | no ne ↦ inr (ground arith)
]

-- What `find` says of a map after a series of calls, and that its keys differ.
register_all_from :
    (m : Dictionary) (calls : List (ℕ × ℕ))
    → IsMap m
    → IsMap (register_all m calls).0
      × ((path : ℕ)
          → find path (register_all m calls).0 ≡ or_else (find path m) (first_for path calls))
unfolding register_all register_handler first_for
register_all_from m [] u = (u, λ path. or_else-none (find path m))
  where
    or_else-none : (o : Option ℕ) → o ≡ or_else o none
    or_else-none none = refl
    or_else-none (some x) = refl
register_all_from m ((k, v) ∷ calls) u = elim (Option-cases (find k m)) [
  | inr (h, taken) ↦
      let (is_map, finds) = register_all_from m calls u in
      rw (taken, register_handler)
        (is_map, λ path. finds path ∙ or_else-taken path k v h _ _ (at_or_apart path k m taken))
  | inl fresh ↦
      let (is_map, finds) =
        register_all_from (insert_in_order k v m) calls (insert_in_order-IsMap k v m u fresh) in
      rw (fresh, register_handler)
        (
          is_map,
          λ path.
              finds path
              ∙ ap (λ o. or_else o (first_for path calls)) (find-insert_in_order path k v m fresh)
              ∙ or_else-fresh path k v _ _ (at_or_apart path k m fresh),
        )
]

-- After any calls of registerHandler on a new server, doRegister sets a callback once for each path
-- that was named, and it is the handler of the first call for the path.
pub do_register-first :
    (calls : List (ℕ × ℕ))
    → IsMap (do_register (register_all [] calls).0)
      × ((path : ℕ) → find path (do_register (register_all [] calls).0) ≡ first_for path calls)
unfolding find
do_register-first calls =
    let (is_map, finds) = register_all_from [] calls tt in
    rw (do_register-id (register_all [] calls).0) (is_map, finds)
