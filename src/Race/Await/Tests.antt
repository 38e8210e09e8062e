-- ===== src/Race/Await/Tests.antt =====
-- The theorems on the wait for a response at concrete queues.
use race_slothy.Common.{
  ◌≡◌, refl, ◌⊎◌, Option, none, some, [], ◌∷◌, ◌++◌, Bytes, codes, bytes_eq, if◌then◌else◌,
}
use race_slothy.Registry.Http.{c_str}
use race_slothy.Race.Toy.{Value, null, str, obj, end, field, toy_json}
use race_slothy.Race.Await.{
  invalid, incomplete, complete, scanned, looping, pass, scan_queue, erase_at, entry_of,
  has_members, entry_name,
}
use race_slothy.Race.Await.Scan.{IsOther}
use race_slothy.Race.Await.Passes.{pass-incomplete}
use race_slothy.Race.Await.Ends.{pass-ne-looping}
use race_slothy.Race.Await.Wakeup.{
  starting, waiting, woken, returned, System, message, notify, wait, scan, put, tell, begin, look,
  Step, stay, go,
}
use race_slothy.Race.Await.Waiting.{IsAnswer, wait-lost, returned-IsAnswer}

-- A response with a name.
abbrev named : Bytes → Value
named name = obj (
    field (codes "name") (str name) (
      field (codes "so_sharded") null (
        field (codes "so") null
          (field (codes "json_sharded") null (field (codes "json") null end)))))

-- A parser of three texts.
abbrev parse : Bytes → Option Value
parse text =
    if bytes_eq text (codes "A")
    then some (named (codes "a"))
    else if bytes_eq text (codes "B")
    then some (named (codes "b"))
    else if bytes_eq text (codes "half")
    then some (obj end)
    else none

is_a : entry_of toy_json parse (codes "A") ≡ complete (codes "a") (named (codes "a"))
unfolding entry_of has_members entry_name bytes_eq c_str
is_a = refl

is_b : entry_of toy_json parse (codes "B") ≡ complete (codes "b") (named (codes "b"))
unfolding entry_of has_members entry_name bytes_eq c_str
is_b = refl

is_half : entry_of toy_json parse (codes "half") ≡ incomplete
unfolding entry_of has_members entry_name bytes_eq c_str
is_half = refl

is_noise : entry_of toy_json parse (codes "noise") ≡ invalid
unfolding entry_of has_members entry_name bytes_eq c_str
is_noise = refl

b-IsOther : IsOther (codes "a") (entry_of toy_json parse (codes "B"))
unfolding entry_of has_members entry_name bytes_eq c_str
b-IsOther = refl

noise-IsOther : IsOther (codes "a") (entry_of toy_json parse (codes "noise"))
unfolding entry_of has_members entry_name bytes_eq c_str
noise-IsOther = tt

pass-incomplete_example :
    pass toy_json parse
      (codes "a")
      ((codes "noise" ∷ []) ++ (codes "B" ∷ codes "half" ∷ codes "noise" ∷ []))
    ≡ scanned ((codes "noise" ∷ []) ++ (codes "half" ∷ codes "noise" ∷ [])) none
pass-incomplete_example =
    pass-incomplete toy_json parse (codes "a") (codes "noise" ∷ []) (codes "noise" ∷ []) (codes "B")
      (codes "half") (noise-IsOther, tt) (b-IsOther, tt) is_half (noise-IsOther, tt)

pass-ne-looping_example :
    ¬ (pass toy_json parse (codes "a") (codes "B" ∷ codes "half" ∷ codes "half" ∷ []) ≡ looping)
pass-ne-looping_example =
    pass-ne-looping toy_json parse (codes "a") (codes "B" ∷ codes "half" ∷ codes "half" ∷ [])

-- The response has come before the wait begins.
abbrev early : System Value
early = record { queue = codes "A" ∷ []; to_notify = 0; phase = starting }

abbrev stuck : System Value
stuck = record { queue = codes "A" ∷ []; to_notify = 0; phase = waiting }

wait-lost_example :
    ((stuck.phase ≡ starting) ⊎ (stuck.phase ≡ waiting)) × (stuck.queue ≡ early.queue)
wait-lost_example =
    wait-lost toy_json parse (codes "a") (wait ∷ []) early stuck
      (go wait [] early stuck stuck (begin early refl) (stay stuck)) (tt, tt) refl refl

abbrev listening : System Value
listening = record { queue = codes "B" ∷ []; to_notify = 0; phase = waiting }

abbrev before : System Value
before = record { queue = codes "B" ∷ []; to_notify = 0; phase = starting }

abbrev put_a : System Value
put_a = record { queue = codes "B" ∷ codes "A" ∷ []; to_notify = 1; phase = waiting }

abbrev told_a : System Value
told_a = record { queue = codes "B" ∷ codes "A" ∷ []; to_notify = 0; phase = woken }

abbrev served : System Value
served = record { queue = codes "B" ∷ []; to_notify = 0; phase = returned (named (codes "a")) }

looks : Step toy_json parse (codes "a") scan told_a served
unfolding pass scan_queue erase_at entry_of has_members entry_name bytes_eq c_str
looks = look told_a refl

returned-IsAnswer_example : IsAnswer toy_json parse (codes "a") (named (codes "a"))
returned-IsAnswer_example =
    returned-IsAnswer toy_json parse (codes "a") (wait ∷ message (codes "A") ∷ notify ∷ scan ∷ [])
      before served (named (codes "a")) refl
      (go wait (message (codes "A") ∷ notify ∷ scan ∷ []) before listening served
        (begin before refl)
        (go (message (codes "A")) (notify ∷ scan ∷ []) listening put_a served
          (put (codes "A") listening)
          (go notify (scan ∷ []) put_a told_a served (tell put_a 0 refl)
            (go scan [] told_a served served looks (stay served)))))
      refl
