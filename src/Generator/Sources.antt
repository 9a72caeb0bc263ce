-- ===== src/Generator/Sources.antt =====
-- From the descriptors of a file to the templates that the generated routes answer by.
use grpc_gateway_rust.Prelude.{
  ◌+◌, ◌≡◌, refl, sym, ◌∙◌, ap, subst, none, some, List, [], ◌∷◌, map, Str, done,
}
use grpc_gateway_rust.Grammar.{Template}
use grpc_gateway_rust.Grammar.Print.{print}
use grpc_gateway_rust.Matching.Tables.{IsProper}
use grpc_gateway_rust.Bindings.Descriptors.{
  RulePattern, HttpRule, rule, HttpRules, no_rules, more_rules, MethodDescriptorProto,
  ServiceDescriptorProto, FileDescriptorProto,
}
use grpc_gateway_rust.Bindings.Registry.{SymbolRegistry, or_default}
use grpc_gateway_rust.Bindings.{
  method_and_template, convert_rule_to_binding, additional_bindings, push_binding, rules_of,
  extract_bindings,
}
use grpc_gateway_rust.Bindings.Laws.{convert_rule_to_binding-print}
use grpc_gateway_rust.Bindings.Services.{MethodDefinition, ServiceDefinition, rule_of, process_file}
use grpc_gateway_rust.Bindings.Processing.{
  DescribesMethods, no_method, skipped, described, DescribesServices, no_service, one_service,
  process_file-DescribesServices,
}
use grpc_gateway_rust.Generator.Routing.{
  Spells, no_binding, spelled, SpellsAll, nothing_spelled, method_spelled, methods_of,
}

-- The templates of the additional bindings of a rule.
pub data RulesSpell : HttpRules → List Template → Type 0 where
  no_more : RulesSpell no_rules []
  one_more :
      {pattern : RulePattern} {body response_body : Str} {nested rs : HttpRules} {t : Template}
      {ts : List Template}
      → (method_and_template pattern).1 ≡ print t
      → IsProper t
      → RulesSpell rs ts
      → RulesSpell (more_rules (rule (some pattern) body response_body nested) rs) (t ∷ ts)

-- The templates of a rule: each is the text of a proper template.
pub data RuleSpells : HttpRule → List Template → Type 0 where
  rule_spells :
      {pattern : RulePattern} {body response_body : Str} {rs : HttpRules} {t : Template}
      {ts : List Template}
      → (method_and_template pattern).1 ≡ print t
      → IsProper t
      → RulesSpell rs ts
      → RuleSpells (rule (some pattern) body response_body rs) (t ∷ ts)

-- The templates of the methods of a service that have a rule.
pub data MethodsSpell : List MethodDescriptorProto → List (List Template) → Type 0 where
  none_spelled : MethodsSpell [] []
  without_rule :
      {m : MethodDescriptorProto} {ms : List MethodDescriptorProto} {tss : List (List Template)}
      → rule_of m ≡ none
      → MethodsSpell ms tss
      → MethodsSpell (m ∷ ms) tss
  with_rule :
      {m : MethodDescriptorProto} {ms : List MethodDescriptorProto} {r : HttpRule}
      {ts : List Template} {tss : List (List Template)}
      → rule_of m ≡ some r
      → RuleSpells r ts
      → MethodsSpell ms tss
      → MethodsSpell (m ∷ ms) (ts ∷ tss)

module _ (registry : SymbolRegistry) (input_type : Str) where
  additional_bindings-Spells :
      {rs : HttpRules} {ts : List Template}
      → RulesSpell rs ts
      → (i : _) → Spells (additional_bindings registry input_type rs i) ts
  unfolding additional_bindings
  additional_bindings-Spells no_more i = no_binding
  additional_bindings-Spells
        (one_more {pattern} {body} {response_body} {nested} {rs} {t} text proper more) i =
      let (b, e, http_method, verb, template, index, names) =
        convert_rule_to_binding-print registry input_type pattern body response_body nested (i + 1)
          t text proper.printable in
      rw (additional_bindings, e)
        (spelled template names proper (additional_bindings-Spells more (i + 1)))

  extract_bindings_lem :
      (r : HttpRule)
      → extract_bindings registry input_type r
        ≡ push_binding registry input_type
            (convert_rule_to_binding registry input_type r 0)
            (additional_bindings registry input_type (rules_of registry input_type r) 0)
  unfolding extract_bindings
  extract_bindings_lem r = refl

  extract_bindings-Spells :
      {r : HttpRule} {ts : List Template}
      → RuleSpells r ts
      → Spells (extract_bindings registry input_type r) ts
  extract_bindings-Spells (rule_spells {pattern} {body} {response_body} {rs} {t} text proper more) =
      let (b, e, http_method, verb, template, index, names) =
        convert_rule_to_binding-print registry input_type pattern body response_body rs 0 t text
          proper.printable in
      rw (extract_bindings_lem, e)
        (spelled template names proper (additional_bindings-Spells more 0))

-- The methods of a definition have the templates of their rules.
abbrev pub Spelled : List MethodDefinition → List (List Template) → Type 0
Spelled ds tss =
    (pairs : List (MethodDefinition × List Template)) × (ds ≡ methods_of pairs)
    × (map (λ (p : MethodDefinition × List Template). p.1) pairs ≡ tss)
    × SpellsAll pairs

DescribesMethods-Spelled :
    {registry : SymbolRegistry} {ms : List MethodDescriptorProto} {ds : List MethodDefinition}
    {tss : List (List Template)}
    → DescribesMethods registry ms ds
    → MethodsSpell ms tss
    → Spelled ds tss
DescribesMethods-Spelled no_method none_spelled = ([], refl, refl, nothing_spelled)
DescribesMethods-Spelled (skipped e rest) (without_rule f more) = DescribesMethods-Spelled rest more
DescribesMethods-Spelled (skipped e rest) (with_rule f spells more) = absurd (cc (e, f))
DescribesMethods-Spelled (described e d rest) (without_rule f more) = absurd (cc (e, f))
DescribesMethods-Spelled {registry} (described {m} {ms} {r} {d} {ds} e is rest)
      (with_rule {r = r'} {ts = ts} f spells more) =
    let (pairs, same, texts, all) = DescribesMethods-Spelled rest more in
    let rules : some r ≡ some r' = sym e ∙ f in
    let same_rule : r ≡ r' = cc rules in
    (
      (d, ts) ∷ pairs,
      ap (λ ds. d ∷ ds) same,
      ap (λ tss. ts ∷ tss) texts,
      method_spelled
          (subst (λ bs. Spells bs ts)
            (sym (is.bindings ∙ ap (extract_bindings registry (or_default m.input_type)) same_rule))
            (extract_bindings-Spells registry (or_default m.input_type) spells))
          all,
    )

-- The templates of the services of a file, and of the definitions that are made of them.
abbrev pub ServicesSpell : List ServiceDescriptorProto → List (List (List Template)) → Type 0
ServicesSpell [] [] = Unit
ServicesSpell (s ∷ ss) (tss ∷ rest) = MethodsSpell s.method tss × ServicesSpell ss rest
ServicesSpell _ _ = ⊥

abbrev pub AllSpelled : List ServiceDefinition → List (List (List Template)) → Type 0
AllSpelled [] [] = Unit
AllSpelled (d ∷ ds) (tss ∷ rest) = Spelled d.methods tss × AllSpelled ds rest
AllSpelled _ _ = ⊥

DescribesServices-AllSpelled :
    {registry : SymbolRegistry} {package_name : Str} {ss : List ServiceDescriptorProto}
    {ds : List ServiceDefinition}
    → DescribesServices registry package_name ss ds
    → (tsss : List (List (List Template))) → ServicesSpell ss tsss
    → AllSpelled ds tsss
DescribesServices-AllSpelled no_service [] h = tt
DescribesServices-AllSpelled no_service (tss ∷ tsss) h = absurd h
DescribesServices-AllSpelled (one_service n p ms rest) [] h = absurd h
DescribesServices-AllSpelled (one_service n p ms rest) (tss ∷ tsss) (spell, h) =
    (DescribesMethods-Spelled ms spell, DescribesServices-AllSpelled rest tsss h)

-- Where the HTTP rules of a file are texts of templates of google.api.http, with `**` at the end only
-- and indices that fit an `i32`, processing the file gives services whose methods have bindings with
-- those templates, in order, and one parameter per variable: what the generated routes need to answer
-- by the specification.
pub process_file-AllSpelled :
    (file : FileDescriptorProto) (registry : SymbolRegistry) (tsss : List (List (List Template)))
    → ServicesSpell file.service tsss
    → (ds : List ServiceDefinition) × (process_file file registry ≡ done ds) × AllSpelled ds tsss
process_file-AllSpelled file registry tsss h =
    let (ds, e, made) = process_file-DescribesServices file registry in
    (ds, e, DescribesServices-AllSpelled made tsss h)
