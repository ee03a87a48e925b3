-- ===== src/Key.antt =====
-- internal/key/builder.go: the counter's key, from the policy's scope and the request's values. The hash of
-- the tags' text, `sha1.Sum` cut to 8 bytes and printed in hexadecimal, is a parameter.
use rlaas.Base.{String, List, [], ◌∷◌, ◌++◌, ◌==◌, ◌<>◌, if◌then◌else◌}
use rlaas.Base.TextOrder.{text_gt}
use rlaas.Base.Trim.{replace_all}
use rlaas.Model.{StringMap, RequestContext, PolicyScope, Policy}
use rlaas.Engine.Matcher.{tag_of}

-- `New`.
unfoldable pub prefix_or_default : String → String
prefix_or_default prefix = if prefix == "" then "rlaas" else prefix

unfoldable pub sanitize : String → String
unfolding replace_all
sanitize s =
    let clean = replace_all b':' "_" (replace_all b' ' "_" s) in if clean == "" then "_" else clean

-- One segment, if the scope names the field.
unfoldable pub scoped : String → String → String → List String
scoped name scope value = if scope == "" then [] else (name <> "=" <> sanitize value) ∷ []

unfoldable pub segments : PolicyScope → RequestContext → List String
segments scope req =
    scoped "org" scope.org_id req.org_id
    ++ (scoped "tenant" scope.tenant_id req.tenant_id
        ++ (scoped "app" scope.application req.application
            ++ (scoped "service" scope.service req.service
                ++ (scoped "env" scope.environment req.environment
                    ++ (scoped "signal" scope.signal_type req.signal_type
                        ++ (scoped "operation" scope.operation req.operation
                            ++ (scoped "endpoint" scope.endpoint req.endpoint
                                ++ (scoped "method" scope.method req.method
                                    ++ (scoped "user" scope.user_id req.user_id
                                        ++ (scoped "api_key" scope.api_key req.api_key
                                            ++ (scoped "client" scope.client_id req.client_id
                                                ++ (scoped "source_ip" scope.source_ip req.source_ip
                                                    ++ (scoped "region" scope.region req.region
                                                        ++ (scoped "resource" scope.resource
                                                            req.resource
                                                            ++ (scoped "severity" scope.severity
                                                            req.severity
                                                            ++ (scoped "span" scope.span_name
                                                            req.span_name
                                                            ++ (scoped "topic" scope.topic req.topic
                                                            ++ (scoped "consumer_group"
                                                            scope.consumer_group req.consumer_group
                                                            ++ scoped "job_type" scope.job_type
                                                            req.job_type))))))))))))))))))

-- `sort.Strings` of the tags' names.
insert_name : String → List String → List String
insert_name k [] = k ∷ []
insert_name k (j ∷ js) = let rest = j ∷ insert_name k js in if text_gt k j then rest else k ∷ j ∷ js

sorted_names : StringMap → List String
unfolding insert_name
sorted_names [] = []
sorted_names ((k, v) ∷ rest) = insert_name k (sorted_names rest)

tags_text : StringMap → List String → String
tags_text req_tags [] = ""
tags_text req_tags (k ∷ ks) = k <> "=" <> tag_of req_tags k <> ";" <> tags_text req_tags ks

unfoldable pub hash_tags : (String → String) → StringMap → StringMap → String
unfolding sorted_names tags_text
hash_tags digest req_tags required = digest (tags_text req_tags (sorted_names required))

unfoldable pub tag_segments : (String → String) → PolicyScope → RequestContext → List String
unfolding hash_tags
tag_segments digest scope req = elim scope.tags [
  | [] ↦ []
  | t ∷ ts ↦ ("tags=" <> hash_tags digest req.tags scope.tags) ∷ []
]

-- `strings.Join(parts, ":")` behind a first part.
unfoldable pub join_from : String → List String → String
join_from first [] = first
join_from first (part ∷ parts) = first <> ":" <> join_from part parts

unfoldable pub build : (String → String) → String → Policy → RequestContext → String
unfolding segments scoped sanitize tag_segments join_from
build digest prefix policy req =
    join_from prefix (segments policy.scope req ++ tag_segments digest policy.scope req)
