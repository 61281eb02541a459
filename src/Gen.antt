-- ===== src/Gen.antt =====
-- gen/main.go: the plugin of protoc that prints a skeleton and a client for each service. What the
-- package protogen knows of a file, its services and their methods is data; the output is the list of
-- what is passed to `g.P`, call by call.
use a_simple_rpc.Prelude.{ℕ, ◌+◌, ◌/◌, ◌%◌, Bool, List, [], ◌∷◌, ◌++◌, ltb, if◌then◌else◌}
use a_simple_rpc.Prelude.Bytes.{Text, codes}

-- A `GoIdent`: the import path of its package and its name.
pub record GoIdent : Type 0 where
  pub import_path : Text
  pub name : Text

-- `protogen.Method`, with the value of its option `MethodOptionId`.
pub record ProtoMethod : Type 0 where
  pub go_name : Text
  pub input : GoIdent
  pub output : GoIdent
  pub option_id : ℕ

pub record ProtoService : Type 0 where
  pub go_name : Text
  pub methods : List ProtoMethod

pub record ProtoFile : Type 0 where
  pub generate : Bool
  pub filename_prefix : Text
  pub go_package_name : Text
  pub services : List ProtoService

-- `g.QualifiedGoIdent`, which also imports, `strings.ToUpper`, and the print of a number.
pub record Printer : Type 0 where
  pub qualified_go_ident : GoIdent → Text
  pub to_upper : Text → Text
  pub itoa : ℕ → Text

-- `string(b)` of a byte: its code point in UTF-8.
unfoldable pub string_of_byte : ℕ → Text
string_of_byte b = if ltb b 128 then b ∷ [] else (192 + b / 64) ∷ (128 + b % 64) ∷ []

unfoldable pub context_package : Text
context_package = codes "context"

unfoldable pub client_package : Text
client_package = codes "github.com/hankeyyh/a-simple-rpc/client"

unfoldable pub protocol_package : Text
protocol_package = codes "github.com/hankeyyh/a-simple-rpc/protocol"

-- Texts that follow one another.
abbrev concat : List Text → Text
concat [] = []
concat (t ∷ ts) = t ++ concat ts

-- The name that the client of a method calls.
unfoldable pub called_name : ProtoMethod → Text
called_name m = m.go_name

module _ (p : Printer) where
  unfoldable pub upper_first_latter : Text → Text
  upper_first_latter [] = []
  upper_first_latter (b ∷ []) = p.to_upper (string_of_byte b)
  upper_first_latter (b ∷ c ∷ s) = p.to_upper (string_of_byte b) ++ (c ∷ s)

  -- The name of a method in the skeleton.
  unfoldable pub skeleton_name : ProtoMethod → Text
  skeleton_name m = upper_first_latter m.go_name

  -- `generateMethod`: the number of the option, and the signature.
  unfoldable pub generate_method : ProtoMethod → List Text
  generate_method m =
      p.itoa m.option_id
      ∷ concat (
          skeleton_name m
          ∷ codes "(ctx context.Context, args *"
          ∷ p.qualified_go_ident m.input
          ∷ codes ", reply *"
          ∷ p.qualified_go_ident m.output
          ∷ codes ") (err error)"
          ∷ [])
      ∷ []

  unfoldable pub generate_methods : List ProtoMethod → List Text
  generate_methods [] = []
  generate_methods (m ∷ ms) = generate_method m ++ generate_methods ms

  -- `generateClientCode`
  unfoldable pub generate_client_code : ProtoService → ProtoMethod → Text
  generate_client_code s m = concat (
      codes "func (c *"
      ∷ upper_first_latter s.go_name
      ∷ codes "Client) "
      ∷ skeleton_name m
      ∷ codes "(ctx context.Context, args *"
      ∷ p.qualified_go_ident m.input
      ∷ codes ")(reply *"
      ∷ p.qualified_go_ident m.output
      ∷ codes ", err error){\n\t\t\treply = &"
      ∷ p.qualified_go_ident m.output
      ∷ codes "{}\n\t\t\terr = c.xclient.Call(ctx,\""
      ∷ called_name m
      ∷ codes "\",args, reply)\n\t\t\treturn reply, err\n\t\t}"
      ∷ [])

  unfoldable pub generate_client_codes : ProtoService → List ProtoMethod → List Text
  generate_client_codes s [] = []
  generate_client_codes s (m ∷ ms) = generate_client_code s m ∷ generate_client_codes s ms

  -- `generateClientCloseCode`
  unfoldable pub generate_client_close_code : ProtoService → Text
  generate_client_close_code s = concat (
      codes "func (c *"
      ∷ upper_first_latter s.go_name
      ∷ codes "Client) Close() error {\n\t\treturn c.xclient.Close()\n\t}"
      ∷ [])

  -- The format of the client, in which each `%[1]s` is the name.
  unfoldable pub client_stub : Text → Text
  client_stub name = concat (
      codes "// "
      ∷ name
      ∷ codes " is a client wrapped XClient.\n\t\ttype "
      ∷ name
      ∷ codes "Client struct{\n\t\t\txclient client.XClient\n\t\t}\n\n\t\t// new"
      ∷ name
      ∷ codes "Client wraps a XClient as "
      ∷ name
      ∷ codes "Client.\n\t\t// You can pass a shared XClient object created by NewXClientFor"
      ∷ name
      ∷ codes ".\n\t\tfunc New"
      ∷ name
      ∷ codes "Client(xclient client.XClient) *"
      ∷ name
      ∷ codes "Client {\n\t\t\treturn &"
      ∷ name
      ∷ codes "Client{xclient: xclient}\n\t\t}\n\n\t\t// NewXClientFor"
      ∷ name
      ∷ codes
          " creates a XClient.\n\t\t// You can configure this client with more options such as etcd registry, serialize type, select algorithm and fail mode.\n\t\tfunc NewXClientFor"
      ∷ name
      ∷ codes
          "(failMode client.FailMode, selectMode client.SelectMode, d client.ServiceDiscovery, opt client.Option) client.XClient {\n\t\t\topt.SerializeType = protocol.ProtoBuffer\n\n\t\t\txclient := client.NewXClient(\""
      ∷ name
      ∷ codes "\", failMode, selectMode, d, opt)\n\n\t\t\treturn xclient\n\t\t}\n\t"
      ∷ [])

  -- `genService`
  unfoldable pub gen_service : ProtoService → List Text
  gen_service s =
      let name = upper_first_latter s.go_name in
      (codes "//================== interface skeleton ==================="
        ∷ concat (codes "type " ∷ name ∷ codes " interface {" ∷ [])
        ∷ []
        ∷ [])
      ++ (generate_methods s.methods
          ++ (codes "}"
              ∷ []
              ∷ codes "//================== client stub ==================="
              ∷ client_stub name
              ∷ (generate_client_codes s s.methods ++ (generate_client_close_code s ∷ []))))

  unfoldable pub gen_services : List ProtoService → List Text
  gen_services [] = []
  gen_services (s ∷ ss) = gen_service s ++ gen_services ss

  abbrev reference : Text → Text → Text
  reference path name =
      codes "var _ = " ++ p.qualified_go_ident (record { import_path = path; name = name })

  -- `generateFileContent`
  unfoldable pub generate_file_content : ProtoFile → List Text
  generate_file_content f = by_services f.services
    where
      by_services : List ProtoService → List Text
      by_services [] = []
      by_services (s ∷ ss) =
          codes "// Reference imports to suppress errors if they are not otherwise used."
          ∷ reference context_package (codes "TODO")
          ∷ reference client_package (codes "NewClient")
          ∷ reference protocol_package (codes "NewMessage")
          ∷ []
          ∷ gen_services (s ∷ ss)

  -- `generateFile`: the name of the file and what is in it.
  unfoldable pub generate_file : ProtoFile → Text × List Text
  generate_file f = (
    f.filename_prefix ++ codes "_simplerpc.pb.go",
    codes "// Code generated by protoc-gen-simple-rpc. DO NOT EDIT."
        ∷ []
        ∷ (codes "package " ++ f.go_package_name)
        ∷ []
        ∷ generate_file_content f,
  )

  -- The function that `main` runs: the files that are asked for.
  unfoldable pub generate_files : List ProtoFile → List (Text × List Text)
  generate_files [] = []
  generate_files (f ∷ fs) =
      let rest = generate_files fs in if f.generate then generate_file f ∷ rest else rest
