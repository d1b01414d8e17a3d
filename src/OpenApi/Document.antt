-- ===== src/OpenApi/Document.antt =====
-- internal/openapi/spec.go: a document with its paths and operations. A map is a list of entries with text
-- keys and a slice a list; a nil pointer is none. The schemas of components are left out, but for whether
-- they are there, and of another schema only its type or its reference is kept.
use aastro.Prelude.{Bool, List, [], ◌∷◌, Option, none, some, String}
use aastro.OpenApi.{FlowExtension}

-- `place` is the field `In`, and `type` that of its schema.
pub record Parameter : Type 0 where
  pub name : String
  pub place : String
  pub required : Bool
  pub type : String

-- Each media type of the content with the type of its schema.
pub record RequestBody : Type 0 where
  pub description : String
  pub content : List (String × String)

-- The headers by their descriptions, and each media type of the content with the reference of its schema, ""
-- if it has none.
pub record Response : Type 0 where
  pub description : String
  pub headers : List (String × String)
  pub content : List (String × String)

-- Security is a list of requirements, each by its schemes.
pub record Operation : Type 0 where
  pub tags : List String
  pub summary : String
  pub description : String
  pub operation_id : String
  pub parameters : List Parameter
  pub request_body : Option RequestBody
  pub security : List (List String)
  pub responses : List (String × Option Response)
  pub x_aastro : Option FlowExtension

pub record PathItem : Type 0 where
  pub get : Option Operation
  pub put : Option Operation
  pub post : Option Operation
  pub delete : Option Operation
  pub options : Option Operation
  pub head : Option Operation
  pub patch : Option Operation
  pub x_aastro_query : Option Operation

pub record RootExtension : Type 0 where
  pub schema : String
  pub generator : String

-- The names of the problem schemas and of the security schemes.
pub record Components : Type 0 where
  pub schemas : List String
  pub security_schemes : List String

pub record Document : Type 0 where
  pub openapi : String
  pub title : String
  pub description : String
  pub version : String
  pub servers : List String
  pub tags : List String
  pub paths : List (String × Option PathItem)
  pub components : Option Components
  pub x_aastro : Option RootExtension

abbrev pub no_operations : PathItem
no_operations = record {
  get = none;
  put = none;
  post = none;
  delete = none;
  options = none;
  head = none;
  patch = none;
  x_aastro_query = none;
}

abbrev pub slot : String → Option Operation → List (String × Operation) → List (String × Operation)
slot method none rest = rest
slot method (some op) rest = (method, op) ∷ rest

-- The operations of an item in the order in which the import visits them: `methodSlots`, and QUERY behind.
unfoldable pub operations_of : Option PathItem → List (String × Operation)
operations_of none = []
operations_of (some i) = slot "GET" i.get (
    slot "PUT" i.put (
      slot "POST" i.post (
        slot "DELETE" i.delete (
          slot "OPTIONS" i.options
            (slot "HEAD" i.head (slot "PATCH" i.patch (slot "QUERY" i.x_aastro_query [])))))))

abbrev pub methods : List String
methods = "GET" ∷ "PUT" ∷ "POST" ∷ "DELETE" ∷ "OPTIONS" ∷ "HEAD" ∷ "PATCH" ∷ "QUERY" ∷ []
