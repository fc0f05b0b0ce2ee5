-- ===== src/Tests/Routes.antt =====
-- A memory of routes, with a small stand-in for the case, the white space and the digest.
use Prim.Native.String.{String}
use mathlib.Core.List.{map}
use ma2a.Base.{
  ℕ, ◌≡◌, refl, ap, true, false, bytes_eq, codes, ltb, ◌+◌, if◌then◌else◌, List, [], ◌∷◌, none,
  some,
}
use ma2a.Base.Int.{pos}
use ma2a.Python.{Text, utf8, utf8_char}
use ma2a.Python.Auth.{contains}
use ma2a.Python.Values.{
  JsonValue, int_value, text_value, dict_value, JsonMembers, no_members, entry, Builtins,
  has_surrogate, encode_utf8, as_text, equals_text, is_in, get_member, member_keys, is_subset,
  get_key, is_negative, is_falsy, format_value,
}
use ma2a.Python.Delta.{as_dict, has_required, read_delta, validate_delta, decode_reference_delta}
use ma2a.Python.Routes.{
  Platform, RouteRecord, RouteMemory, new_memory, recall, get_item, set_item, strip_start, strip,
  split_words, join_words, condition_key, derive_address, is_rejected, register, resolve_external,
  resolve,
}
use ma2a.Python.Routes.Import.{
  set_condition, store, derive_address_value, accept_delta, import_delta,
}
use ma2a.Python.Routes.Recall.{Call, perform}
use ma2a.Python.Routes.Used.{Use, resolve_call, import_call, after, after_all, resolve_local}
use ma2a.Python.Routes.Again.{resolve_again}

-- Letters and blanks of ASCII, and a digest that is the text itself.
abbrev toy : Platform
toy = record {
  lower = map (λ c. if ltb 64 c then (if ltb c 91 then c + 32 else c) else c);
  is_space = λ c. ltb c 33;
  sha256 = λ t. t;
}

abbrev first : Call toy
first = record {
  condition = codes " Red  light ";
  external_resolver = some (λ condition. some (codes "stop"));
  validator = some (λ result. true);
}

abbrev second : Call toy
second = record {
  condition = codes "red LIGHT";
  external_resolver = some (λ condition. none);
  validator = none;
}

abbrev stop_address : Text
stop_address = codes "rm:rm-route-v1|red light|stop"

-- A condition is looked up by its words in lower case.
same_key : condition_key toy second.condition ≡ condition_key toy first.condition
unfolding condition_key strip strip_start split_words join_words utf8 utf8_char bytes_eq
same_key = refl

first_answer :
    (perform toy new_memory first).1 ≡ some (text_value (codes "stop"), false, stop_address)
unfolding condition_key strip strip_start split_words join_words utf8 utf8_char bytes_eq resolve
    resolve_external register get_item set_item derive_address is_rejected
first_answer = refl

-- The payload of an exported route, and the delta around it, as a `dict`.
abbrev payload : Text
payload = codes "{\"condition_key\":\"red light|now\",\"result\":\"go\",\"version\":1}"

abbrev go_address : Text
go_address = codes "rm:rm-route-v1|red light|now|go"

abbrev text_entry : String → String → JsonMembers → JsonMembers
text_entry key value members = entry (codes key) (text_value (codes value)) members

abbrev number_entry : String → ℕ → JsonMembers → JsonMembers
number_entry key n members = entry (codes key) (int_value (pos n)) members

abbrev route_members : JsonMembers
route_members =
    text_entry "condition_key" "red light|now"
      (text_entry "result" "go" (number_entry "version" 1 no_members))

abbrev delta_members : JsonMembers
delta_members = entry (codes "payload_or_reference") (text_value payload) (
    entry (codes "integrity_digest") (text_value payload) (
      entry (codes "trajectory_address") (text_value go_address) (
        text_entry "protocol_version" "0.1" (
          text_entry "message_id" "m-1" (
            text_entry "sender_id" "a" (
              text_entry "organization_id" "o" (
                number_entry "base_version" 0 (
                  number_entry "new_version" 1 (
                    text_entry "operation" "SET" (
                      text_entry "scope" "shared" (
                        number_entry "logical_clock" 3
                          (text_entry "signature" "s" no_members))))))))))))

-- A reader of this payload and this delta.
abbrev toy_builtins : Builtins
toy_builtins = record {
  decode = λ encoded. some encoded;
  loads = λ t. some (dict_value (if bytes_eq t payload then route_members else delta_members));
  int = λ v. some (pos 1);
  format = λ v. [];
  is_negative_float = λ f. false;
  is_zero_float = λ f. false;
}

abbrev go_route : RouteRecord
go_route = record {
  trajectory_address = go_address;
  condition_key = text_value (codes "red light|now");
  result = text_value (codes "go");
  version = pos 1;
  scope = codes "shared";
}

accepts_route : accept_delta toy toy_builtins (codes "delta") ≡ some go_route
unfolding accept_delta decode_reference_delta as_dict has_required read_delta validate_delta
    member_keys is_subset contains get_member is_in is_negative is_falsy encode_utf8 has_surrogate
    as_text equals_text get_key format_value derive_address_value derive_address utf8 utf8_char
    bytes_eq
accepts_route = refl

abbrev uses : List (Use toy toy_builtins)
uses = resolve_call first ∷ import_call (codes "delta") ∷ []

imports : (m : RouteMemory) → import_delta toy toy_builtins m (codes "delta") ≡ store m go_route
unfolding import_delta
imports m = rw (accepts_route, import_delta) refl

known_key :
    get_item
      (after_all toy toy_builtins new_memory uses).by_condition
      (condition_key toy second.condition)
    ≡ some stop_address
unfolding condition_key strip strip_start split_words join_words utf8 utf8_char bytes_eq resolve
    resolve_external register get_item set_item derive_address is_rejected after after_all store
    set_condition
known_key =
    ap (λ done. get_item (done.0).by_condition (condition_key toy second.condition))
      (imports (perform toy new_memory first).0)

resolve_local_example :
    let m = after_all toy toy_builtins new_memory uses in
    (result : JsonValue) × (perform toy m second ≡ (m, some (result, true, stop_address)))
resolve_local_example = resolve_local toy toy_builtins uses second stop_address known_key

resolve_again_example :
    let m = (perform toy new_memory first).0 in
    perform toy m second ≡ (m, some (text_value (codes "stop"), true, stop_address))
resolve_again_example =
    resolve_again toy new_memory first second (text_value (codes "stop")) stop_address false
      first_answer same_key

-- A route whose result has a bar in it.
abbrev barred : Call toy
barred = record first { external_resolver = some (λ condition. some (codes "now|go")) }

-- The imported route has the address of that route, and the condition is then answered with the
-- result of the imported one.
import_replaces :
    let m = (perform toy new_memory barred).0 in
    (perform toy (import_delta toy toy_builtins m (codes "delta")).0 second).1
    ≡ some (text_value (codes "go"), true, go_address)
unfolding condition_key strip strip_start split_words join_words utf8 utf8_char bytes_eq resolve
    resolve_external register get_item set_item derive_address is_rejected store set_condition
    recall
import_replaces =
    ap (λ done. (perform toy done.0 second).1) (imports (perform toy new_memory barred).0)
