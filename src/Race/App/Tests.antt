-- ===== src/Race/App/Tests.antt =====
-- The theorems on the answers to the questions of plugins with a JSON library of lists.
use race_slothy.Common.{
  ◌≡◌, ◌≢◌, refl, ◌∙◌, Bool, true, false, Option, none, some, List, [], ◌∷◌, ◌++◌, Bytes, codes,
  bytes_eq, pos, ap, sym, take_left, drop_left, bytes_eq_refl, length, take, drop,
}
use race_slothy.Race.Toy.{Value, null, flag, num, str, arr, obj, Fields, end, field, toy_json}
use race_slothy.Race.App.{
  CacheLib, UserResponse, App, get_response, write_cache, cache_response, read_cache, optional,
  response_of, parse_response, or_no_answer, keep_answer, request_user_input, on_sdk_status_changed,
  undefined, ready_texts, is_plugin_ready,
}
use race_slothy.Race.App.Status.{
  Alternates, told, is_ready_text, is_unready_text, status_changes, status_changes-Alternates,
}
use race_slothy.Race.App.Answers.{request_user_input-again, read_cache-cache_response}

abbrev is_string : Value → Bool
is_string (str s) = true
is_string null = false
is_string (flag b) = false
is_string (num n) = false
is_string (arr xs) = false
is_string (obj fs) = false

abbrev set_member : Value → Bytes → Bytes → Option Value
set_member (obj fs) key value = some (obj (field key (str value) fs))
set_member (str s) key value = none
set_member null key value = some (obj (field key (str value) end))
set_member (flag b) key value = none
set_member (num n) key value = none
set_member (arr xs) key value = none

-- An object of one text: the length of its key, the key and the text.
abbrev dump_fields : Fields → Option Bytes
dump_fields (field key (str value) end) = some (length key ∷ (key ++ value))
dump_fields fs = none

abbrev dump : Value → Option Bytes
dump (obj fs) = dump_fields fs
dump (str s) = none
dump null = none
dump (flag b) = none
dump (num n) = none
dump (arr xs) = none

abbrev parse : Bytes → Option Value
parse [] = none
parse (n ∷ text) = some (obj (field (take n text) (str (drop n text)) end))

at-set_member :
    (v w : Value) (key value : Bytes)
    → set_member v key value ≡ some w
    → toy_json.at w key ≡ some (str value)
at-set_member (obj fs) w key value e =
    let same : w ≡ obj (field key (str value) fs) =
      ap (λ (o : Option Value). elim o [ none ↦ w | some x ↦ x ]) (sym e) in
    rw (same, bytes_eq_refl key) refl
at-set_member (str s) w key value e = absurd cc
at-set_member null w key value e =
    let same : w ≡ obj (field key (str value) end) =
      ap (λ (o : Option Value). elim o [ none ↦ w | some x ↦ x ]) (sym e) in
    rw (same, bytes_eq_refl key) refl
at-set_member (flag b) w key value e = absurd cc
at-set_member (num n) w key value e = absurd cc
at-set_member (arr xs) w key value e = absurd cc

-- A dump stands for an object of one text.
dump-one :
    (key value : Bytes)
    → parse (length key ∷ (key ++ value)) ≡ some (obj (field key (str value) end))
dump-one key value = rw (take_left key value refl, drop_left key value refl) refl

dump_cases :
    (v : Value) (b : Bytes)
    → dump v ≡ some b
    → (key : Bytes) × (value : Bytes) × (v ≡ obj (field key (str value) end))
      × (length key ∷ (key ++ value) ≡ b)
dump_cases (obj (field key (str value) end)) b e =
    (key, value, refl, ap (λ (o : Option Bytes). elim o [ none ↦ b | some x ↦ x ]) e)
dump_cases (obj (field key (str value) (field k v fs))) b e = absurd cc
dump_cases (obj (field key null fs)) b e = absurd cc
dump_cases (obj (field key (flag x) fs)) b e = absurd cc
dump_cases (obj (field key (num n) fs)) b e = absurd cc
dump_cases (obj (field key (arr xs) fs)) b e = absurd cc
dump_cases (obj (field key (obj gs) fs)) b e = absurd cc
dump_cases (obj end) b e = absurd cc
dump_cases (str s) b e = absurd cc
dump_cases null b e = absurd cc
dump_cases (flag x) b e = absurd cc
dump_cases (num n) b e = absurd cc
dump_cases (arr xs) b e = absurd cc

parse-dump : (v : Value) (b : Bytes) → dump v ≡ some b → parse b ≡ some v
parse-dump v b e =
    let (key, value, is_v, is_b) = dump_cases v b e in
    ap parse (sym is_b) ∙ dump-one key value ∙ ap some (sym is_v)

dump-ne-nil : (v : Value) (b : Bytes) → dump v ≡ some b → b ≢ []
dump-ne-nil v b e is_nil = let (key, value, is_v, is_b) = dump_cases v b e in absurd cc

abbrev toy_cache : CacheLib toy_json
toy_cache = record {
  empty = obj end;
  is_string = is_string;
  is_finite = λ v. true;
  set_member = set_member;
  dump = dump;
  parse = parse;
  read = λ text. some (obj (field (codes "p") (obj (field (codes "q.r") (str text) end)) end));
  at-set_member = at-set_member;
  parse-dump = λ v b finite e. parse-dump v b e;
  is_finite-set_member = λ v w key value finite e. refl;
  dump-ne-nil = dump-ne-nil;
}

abbrev fresh : App toy_json
fresh = record { cache = obj end; cache_file = []; ready = false; current_sdk_status = null }

-- The answer "yes" to the question "q.r" of the plugin "p".
abbrev answer : UserResponse
answer = record { answered = true; response = codes "yes"; delay_ms = pos 0 }

abbrev cached : Value
cached = obj (field (codes "p.q.r") (str (codes "yes")) end)

abbrev filled : App toy_json
filled = record {
  cache = cached;
  cache_file = 5 ∷ codes "p.q.ryes";
  ready = false;
  current_sdk_status = null;
}

asks :
    request_user_input toy_json toy_cache fresh
      (some (codes "yes"))
      (codes "p")
      (codes "q.r")
      true
      true
    ≡ some (answer, filled)
unfolding get_response write_cache cache_response optional response_of parse_response or_no_answer
    keep_answer request_user_input bytes_eq
asks = refl

-- The plugin "p.q" gets the answer that was given to "p".
request_user_input-again_example :
    request_user_input toy_json toy_cache filled none (codes "p.q") (codes "r") true false
    ≡ some (answer, filled)
request_user_input-again_example =
    request_user_input-again toy_json toy_cache fresh filled (some (codes "yes")) none (codes "p")
      (codes "q.r") (codes "p.q") (codes "r") answer true false asks refl refl

abbrev restarted : App toy_json
restarted = record {
  cache = null;
  cache_file = 5 ∷ codes "p.q.ryes";
  ready = false;
  current_sdk_status = null;
}

stores :
    cache_response toy_json toy_cache fresh (codes "p") (codes "q.r") (codes "yes") true
    ≡ some (true, filled)
unfolding write_cache cache_response
stores = refl

read_cache-cache_response_example :
    ((read_cache toy_json toy_cache restarted).0 ≡ true)
    × (get_response toy_json toy_cache
          (read_cache toy_json toy_cache restarted).1
          (codes "p")
          (codes "q.r")
        ≡ some (codes "yes"))
read_cache-cache_response_example =
    read_cache-cache_response toy_json toy_cache fresh restarted (codes "p") (codes "q.r")
      (codes "yes") (true, filled) stores refl refl

abbrev status_of : Bytes → Value
status_of status = obj (field (codes "ta1-status") (str status) end)

-- Ready, still ready, a status that is no object, not ready, and ready again.
abbrev changes : List Value
changes =
    status_of (codes "PLUGIN_READY")
    ∷ status_of (codes "PLUGIN_READY")
    ∷ null
    ∷ status_of (codes "PLUGIN_NOT_READY")
    ∷ status_of (codes "PLUGIN_READY")
    ∷ []

prints_three :
    (status_changes toy_json (codes "ta1-status") fresh changes).1
    ≡ is_ready_text ∷ is_unready_text ∷ is_ready_text ∷ []
unfolding status_changes on_sdk_status_changed is_plugin_ready ready_texts bytes_eq
prints_three = refl

-- A status without the member.
no_member : on_sdk_status_changed toy_json (codes "ta1-status") fresh (obj end) ≡ undefined
unfolding on_sdk_status_changed
no_member = refl

status_changes-Alternates_example :
    Alternates false (status_changes toy_json (codes "ta1-status") fresh changes).1
    × (told false (status_changes toy_json (codes "ta1-status") fresh changes).1
        ≡ (status_changes toy_json (codes "ta1-status") fresh changes).0.ready)
status_changes-Alternates_example =
    status_changes-Alternates toy_json (codes "ta1-status") fresh changes
