-- ===== src/Tests/Generator.antt =====
-- gen/main.go on a service with one method.
use a_simple_rpc.Prelude.{◌≡◌, refl, [], ◌∷◌, text_eq}
use a_simple_rpc.Prelude.Bytes.{codes}
use a_simple_rpc.Gen.{
  ProtoMethod, Printer, skeleton_name, generate_method, upper_first_latter, string_of_byte,
}

abbrev printer : Printer
printer = record { qualified_go_ident = λ i. i.name; to_upper = λ s. s; itoa = λ n. 48 ∷ [] }

abbrev mul_method : ProtoMethod
mul_method = record {
  go_name = codes "Mul";
  input = record { import_path = codes "pb"; name = codes "Args" };
  output = record { import_path = codes "pb"; name = codes "Reply" };
  option_id = 0;
}

-- The number of the option stands on a line of its own, in the interface.
mul_lines :
    generate_method printer mul_method
    ≡ codes "0" ∷ codes "Mul(ctx context.Context, args *Args, reply *Reply) (err error)" ∷ []
unfolding generate_method skeleton_name upper_first_latter string_of_byte
mul_lines = refl
