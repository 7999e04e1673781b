-- ===== src/Trace/Balance.antt =====
-- The calls on spans, and what opening and closing one keeps.
use agent_on_demand.Prelude.{
  ℕ, suc, ◌+◌, ◌==◌, ◌≤◌, ◌≡◌, refl, Bool, false, some, List, [], ◌∷◌, ◌++◌, String, count,
  count-append, arith, Bool-cases, inl, inr, if◌then◌else◌,
}
use text.Mathlib.Text.{◌==◌ as str_eq}
use agent_on_demand.Trace.{
  Attributes, Call, add_event, start_span, set_attribute, end_span, Spans, clean_attrs, open_span,
  popped, set_attributes, end_tool,
}

abbrev pub is_start : ℕ → Call → Bool
is_start s (start_span t name attrs) = t == s
is_start s _ = false

abbrev pub is_end : ℕ → Call → Bool
is_end s (end_span t) = t == s
is_end s _ = false

-- How often a span is started, and how often it is ended.
abbrev pub starts : ℕ → List Call → ℕ
starts s calls = count (is_start s) calls

abbrev pub ends : ℕ → List Call → ℕ
ends s calls = count (is_end s) calls

abbrev pub IsLive : ℕ → List Call → Type 0
IsLive s calls = (starts s calls ≡ 1) × (ends s calls ≡ 0)

-- No span is started twice, and a span is used and ended while it is live. Newest call first.
abbrev pub IsWellUsed : List Call → Type 0
IsWellUsed [] = Unit {0}
IsWellUsed (add_event name attrs ∷ calls) = IsWellUsed calls
IsWellUsed (start_span s name attrs ∷ calls) = (starts s calls ≡ 0) × IsWellUsed calls
IsWellUsed (set_attribute s k v ∷ calls) = IsLive s calls × IsWellUsed calls
IsWellUsed (end_span s ∷ calls) = IsLive s calls × IsWellUsed calls

abbrev pub held : ℕ → List (String × ℕ) → ℕ
held s open_spans = count (λ p. p.1 == s) open_spans

-- The open spans are those that are started and not ended.
pub record IsBalanced (open_spans : List (String × ℕ)) (calls : List Call) : Type 0 where
  pub used : IsWellUsed calls
  pub balance : (s : ℕ) → starts s calls ≡ ends s calls + held s open_spans
  pub single : (s : ℕ) → starts s calls ≤ 1

pub record IsTracked (e : Spans) : Type 0 where
  pub balanced : IsBalanced e.open_tool_spans e.calls
  pub unused : (s : ℕ) → e.next_span ≤ s → starts s e.calls ≡ 0

open_span-popped :
    (id : String) (o : List (String × ℕ)) (s t : ℕ)
    → open_span id o ≡ some s
    → held t o ≡ (if s == t then 1 else 0) + held t (popped id o)
unfolding open_span popped count
open_span-popped id [] s t h = absurd (cc h)
open_span-popped id ((j, r) ∷ rest) s t h = elim (Bool-cases (str_eq j id)) [
  | inl e ↦ let same : r ≡ s = cc (rw e at h) in rw (e, same) refl
  | inr e ↦ ground (arith, e, h, open_span-popped id rest s t (rw e at h))
]

-- Attributes on a live span.
set_attributes-IsWellUsed :
    (s : ℕ) (attrs : Attributes) (calls : List Call)
    → IsLive s calls
    → IsWellUsed calls
    → IsWellUsed (set_attributes s attrs calls)
unfolding set_attributes count
set_attributes-IsWellUsed s [] calls l u = u
set_attributes-IsWellUsed s ((k, v) ∷ attrs) calls l u =
    set_attributes-IsWellUsed s attrs (set_attribute s k v ∷ calls)
      (omega (arith, l.0), omega (arith, l.1)) (l, u)

starts-set_attributes :
    (t s : ℕ) (attrs : Attributes) (calls : List Call)
    → (starts t (set_attributes s attrs calls) ≡ starts t calls)
      × (ends t (set_attributes s attrs calls) ≡ ends t calls)
unfolding set_attributes count
starts-set_attributes t s [] calls = (refl, refl)
starts-set_attributes t s ((k, v) ∷ attrs) calls =
    let (same_starts, same_ends) = starts-set_attributes t s attrs (set_attribute s k v ∷ calls) in
    (omega (arith, same_starts), omega (arith, same_ends))

-- An open span is live.
held-IsLive :
    (o : List (String × ℕ)) (calls : List Call) (s : ℕ)
    → IsBalanced o calls
    → 1 ≤ held s o
    → IsLive s calls
held-IsLive o calls s b h =
    let single = b.single s in
    let balance = b.balance s in
    (omega (arith, single, balance, h), omega (arith, single, balance, h))

-- Ending an open span, with attributes first.
pub end-IsBalanced :
    (o rest : List (String × ℕ)) (calls : List Call) (s : ℕ) (attrs : Attributes)
    → IsBalanced o calls
    → ((t : ℕ) → held t o ≡ (if s == t then 1 else 0) + held t rest)
    → IsBalanced rest (end_span s ∷ set_attributes s attrs calls)
unfolding count
end-IsBalanced o rest calls s attrs b h =
    let live = held-IsLive o calls s b (ground (arith, h s)) in
    let same = λ (t : ℕ). starts-set_attributes t s attrs calls in
    record {
      used = (
        (rw (same s).0 live.0, rw (same s).1 live.1),
        set_attributes-IsWellUsed s attrs calls live b.used,
      );
      balance = λ t. ground (arith, h t, b.balance t, (same t).0, (same t).1);
      single = λ t. ground (arith, b.single t, (same t).0);
    }

pub start-IsTracked :
    (e : Spans) (id name : String) (attrs : Attributes)
    → IsTracked e
    → IsTracked record {
      open_tool_spans = e.open_tool_spans ++ (id, e.next_span) ∷ [];
      next_span = suc e.next_span;
      calls = start_span e.next_span name attrs ∷ e.calls;
    }
unfolding count
start-IsTracked e id name attrs i =
    let b = i.balanced in
    let new = i.unused e.next_span (omega arith) in
    record {
      balanced = record {
        used = (new, b.used);
        balance = λ t. ground (
          arith,
          b.balance t,
          count-append (λ (p : String × ℕ). p.1 == t) e.open_tool_spans ((id, e.next_span) ∷ []),
        );
        single = λ t. elim (Bool-cases (e.next_span == t)) [
          | inl h ↦ let none_yet = i.unused t (ground (arith, h)) in ground (arith, h, none_yet)
          | inr h ↦ ground (arith, h, b.single t)
        ];
      };
      unused = λ t h. ground (arith, i.unused t (omega (arith, h)), h);
    }

pub end-IsTracked :
    (e : Spans) (id : String) (s : ℕ) (attrs : Attributes)
    → IsTracked e
    → open_span id e.open_tool_spans ≡ some s
    → IsTracked (end_tool (some s) id attrs e)
unfolding count
end-IsTracked e id s attrs i h =
    let b = i.balanced in
    let removed = λ (t : ℕ). open_span-popped id e.open_tool_spans s t h in
    record {
      balanced =
          end-IsBalanced e.open_tool_spans (popped id e.open_tool_spans) e.calls s
            (clean_attrs attrs) b removed;
      unused = λ t k.
          omega (arith, i.unused t k, (starts-set_attributes t s (clean_attrs attrs) e.calls).0);
    }

pub event-IsTracked :
    (e : Spans) (name : String) (attrs : Attributes)
    → IsTracked e
    → IsTracked (record e { calls = add_event name attrs ∷ e.calls })
unfolding count
event-IsTracked e name attrs i =
    let b = i.balanced in
    record {
      balanced = record {
        used = b.used;
        balance = λ t. omega (arith, b.balance t);
        single = λ t. omega (arith, b.single t);
      };
      unused = λ t k. omega (arith, i.unused t k);
    }
