-- ===== src/Json/Laws.antt =====
-- What a value is when a check of Json accepts it.
use technocore_safe_agent.Base.{
  String, List, Error, true, ◌≡◌, ok, contains, string_eq, arith, str_eq_iff,
}
use technocore_safe_agent.Json.{Value, str, member_of, is_text}

pub member_of-eq :
    (e : Error) (texts : List String) (value : Value) {s : String}
    → member_of e texts value ≡ ok s
    → (value ≡ str s) × (contains texts s ≡ true)
unfolding member_of
member_of-eq e texts (str t) h = ground arith
member_of-eq e texts value h = ground arith

pub is_text-eq : (text : String) (value : Value) → is_text text value ≡ true → value ≡ str text
is_text-eq text (str s) h = ground (arith, str_eq_iff s text)
is_text-eq text value h = ground arith
