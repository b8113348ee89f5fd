-- ===== src/Tests/Sinks.antt =====
-- A client's sink and a global interface table.
use axhost.Common.{
  ℕ, Bool, true, false, not, ◌+◌, ◌==◌, ◌&&◌, ltb, ◌≡◌, refl, List, [], ◌∷◌, none, some, arith,
  if◌then◌else◌,
}
use axhost.Common.Hresult.{s_ok, e_fail}
use axhost.Sink.{Global, Wake, invoke}
use axhost.Sink.Waiting.{Other, invoke-returns, invoke-waits}
use axhost.Sink.Lifecycle.{Laws}

-- A table that has given the cookies below a number, and which of them it holds.
pub record Cookies : Type 0 where
  pub count : ℕ
  pub held : ℕ → Bool

abbrev pub holds : Cookies → ℕ → Bool
holds w k = ltb k w.count && w.held k

abbrev pub add : Cookies → Cookies
add w = record { count = w.count + 1; held = λ k. if k == w.count then true else w.held k }

abbrev pub drop : ℕ → Cookies → Cookies
drop j w = record w { held = λ k. if k == j then false else w.held k }

-- The table starts at 1; the sinks are 7, and 8 which has no IDispatch; a member returns its number.
abbrev cookies : Global
cookies = record {
  World = Cookies;
  has_table = λ w. not (w.count == 0);
  query_dispatch = λ p w. if p == 8 then (w, e_fail, 0) else (w, s_ok, p);
  register_interface = λ p w. if w.count == 0 then (w, e_fail, 0) else (add w, s_ok, w.count);
  revoke_interface = λ j w. (drop j w, s_ok);
  get_interface = λ j w. if holds w j then (w, s_ok, 7) else (w, e_fail, 0);
  invoke = λ p m w. (w, m);
}

cookies-Laws : Laws cookies
cookies-Laws = record {
  holds = holds;
  has_table-query = λ p w. ground arith;
  has_table-register = λ p w. ground arith;
  holds-query = λ p w k. ground arith;
  failed-register = λ p w. ground arith;
  new-register = λ p w h. ground arith;
  holds-register = λ p w k. ground arith;
  holds-revoke = λ j w k h. ground arith;
}

abbrev pub none_held : Cookies
none_held = record { count = 1; held = λ k. false }

abbrev message : Wake
message = record { hr = s_ok; index = 5 }

abbrev event : Wake
event = record { hr = s_ok; index = 0 }

-- Two messages arrive before the event, and nothing but messages if the event is not set.
abbrev wakes : Bool → List Wake
wakes true = message ∷ message ∷ event ∷ []
wakes false = message ∷ message ∷ message ∷ []

message-Other : Other message
message-Other = (refl, omega arith)

abbrev one_held : Cookies
one_held = add none_held

invoke-returns_example : invoke cookies true true wakes 42 1 one_held ≡ (one_held, some 42)
invoke-returns_example =
    invoke-returns cookies wakes 42 1 one_held (message ∷ message ∷ []) [] event (omega arith) refl
      refl (message-Other, (message-Other, tt)) refl refl

invoke-waits_example : (invoke cookies true true wakes 42 9 one_held).1 ≡ none
invoke-waits_example =
    invoke-waits cookies wakes 42 9 one_held (omega arith) refl
      (message-Other, (message-Other, (message-Other, tt)))
