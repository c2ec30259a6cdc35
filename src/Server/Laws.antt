-- ===== src/Server/Laws.antt =====
-- Which handler a request reaches, and the agent's name that the handler reads.
use Prim.Native.String.len
use Prim.Native.String.{len}
use Prim.Native.Char.{len_utf8}
use Prim.Native.String.{[], ◌∷◌}
use text.Mathlib.TextPositions.{slice-append_right, len-append, len_utf8-pos}
use text.Mathlib.TextLemmas.{
  append-nil, append_cancel_left, append-ne-nil_of_right_ne-nil, cons≢nil,
}
use a2a_registry.Common.{
  ◌+◌, ◌-◌, ◌<◌, String, ◌<>◌, true, false, ◌≡◌, ◌≢◌, refl, sym, ◌∙◌, ap, arith, ◌==◌, ltb,
  false≢true,
}
use a2a_registry.GoStrings.{has_prefix}
use a2a_registry.GoStrings.Laws.{
  NoChar, has_prefix-append, has_suffix-append, contains_of_NoChar, eq-false_of_ne,
}
use a2a_registry.Handler.Names.{extract_name_from_path}
use a2a_registry.Handler.Names.Laws.{extract_name-append, extract_name-append_slash}
use a2a_registry.Server.Routes.{
  deregister, approve, get_card, agents_root, agents_slash, sub_path, ends_in_card, sub_route,
  agents_route, route,
}

sub_path-append : (sub : String) → sub_path (agents_slash <> sub) ≡ sub
unfolding sub_path
sub_path-append sub = rw len-append (slice-append_right agents_slash sub)

len-pos : (s : String) → s ≢ "" → 0 < len s
len-pos [] h = absurd (h refl)
len-pos (c ∷ s) h =
    let (k, wide) = len_utf8-pos c in
    let sum : len (c ∷ s) ≡ len_utf8 c + len s = len.cons c s in omega (arith, sum, wide)

-- A path under the prefix is none of the paths that do not have it.
other_path :
    (sub path : String)
    → has_prefix path agents_slash ≡ false
    → (agents_slash <> sub == path) ≡ false
other_path sub path h = eq-false_of_ne _ path (λ e.
    false≢true
      (sym h ∙ ap (λ p. has_prefix p agents_slash) (sym e) ∙ has_prefix-append agents_slash sub))

longer_path : (sub : String) → sub ≢ "" → (agents_slash <> sub == agents_slash) ≡ false
longer_path sub h =
    eq-false_of_ne _ agents_slash
      (λ e. h (append_cancel_left agents_slash sub "" (e ∙ sym (append-nil agents_slash))))

sub_longer : (sub : String) → sub ≢ "" → ltb (len agents_slash) (len (agents_slash <> sub)) ≡ true
sub_longer sub h =
    let sum = len-append agents_slash sub in let some_left = len-pos sub h in ground arith

-- A path that goes on behind the prefix is shared out by what follows the prefix.
route-append :
    (method sub : String) → sub ≢ "" → route method (agents_slash <> sub) ≡ sub_route method sub
unfolding route agents_route has_prefix
route-append method sub h = ground (
  arith,
  other_path sub "/.well-known/agent-card.json" refl,
  other_path sub "/.well-known/agent.json" refl,
  other_path sub agents_root refl,
  longer_path sub h,
  sub_longer sub h,
  sub_path-append sub,
  has_prefix-append agents_slash sub,
)

ends_in_card-append : (name : String) → name ≢ "" → ends_in_card (name <> "/card") ≡ true
unfolding ends_in_card
ends_in_card-append name h =
    let sum = len-append name "/card" in
    let some_left = len-pos name h in
    let start : len (name <> "/card") - 5 ≡ len name = omega (arith, sum) in
    let long : ltb 5 (len (name <> "/card")) ≡ true = ground arith in
    rw (long, start, sum, slice-append_right name "/card")

-- A name: not empty, and with no slash.
abbrev pub IsSegment : String → Type 0
IsSegment name = (name ≢ "") × NoChar b'/' name

route-deregister :
    (name : String)
    → IsSegment name
    → (route "DELETE" (agents_slash <> name) ≡ deregister)
      × (extract_name_from_path (agents_slash <> name) agents_slash ≡ name)
route-deregister name h =
    (route-append "DELETE" name h.0 ∙ delete_segment, extract_name-append agents_slash name h.1)
  where
    delete_segment : sub_route "DELETE" name ≡ deregister
    delete_segment = unfold sub_route in rw (contains_of_NoChar name "/" h.1)

route-approve :
    (name : String)
    → IsSegment name
    → (route "POST" (agents_slash <> (name <> "/approve")) ≡ approve)
      × (extract_name_from_path (agents_slash <> (name <> "/approve")) agents_slash ≡ name)
route-approve name h = (
  route-append "POST" (name <> "/approve") (append-ne-nil_of_right_ne-nil name cons≢nil)
      ∙ (unfold sub_route in rw (has_suffix-append name "/approve")),
  extract_name-append_slash agents_slash name "approve" h.1,
)

-- For a name that is not empty and has no slash: a DELETE of its path reaches `DeregisterAgent`,
-- and a POST to its path with "/approve" behind it reaches `ApproveAgent`; both read that name.
pub route-segment :
    (name : String)
    → IsSegment name
    → (route "DELETE" (agents_slash <> name) ≡ deregister)
      × (extract_name_from_path (agents_slash <> name) agents_slash ≡ name)
      × (route "POST" (agents_slash <> (name <> "/approve")) ≡ approve)
      × (extract_name_from_path (agents_slash <> (name <> "/approve")) agents_slash ≡ name)
route-segment name h =
    let (to, read) = route-deregister name h in
    let (to', read') = route-approve name h in (to, read, to', read')

-- A request with a method other than DELETE and POST for the path of a name with "/card" behind it
-- reaches `GetAgentCard`, which reads that name.
pub route-get_card :
    (method name : String)
    → method ≢ "DELETE"
    → method ≢ "POST"
    → IsSegment name
    → (route method (agents_slash <> (name <> "/card")) ≡ get_card)
      × (extract_name_from_path (agents_slash <> (name <> "/card")) agents_slash ≡ name)
route-get_card method name d p h = (
  route-append method (name <> "/card") (append-ne-nil_of_right_ne-nil name cons≢nil)
      ∙ (unfold sub_route in
          rw (
            eq-false_of_ne method "DELETE" d,
            eq-false_of_ne method "POST" p,
            ends_in_card-append name h.0,
          )),
  extract_name-append_slash agents_slash name "card" h.1,
)
