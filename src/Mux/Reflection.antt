-- ===== src/Mux/Reflection.antt =====
-- What `RegisterConn` and `FindFileByPath` of larking/mux.go read of a connection's reflection service.
-- The stream of that service, the messages of package descriptorpb, protodesc.NewFile and the registry
-- of files are parameters.
use larking.Base.{Option, none, some, List, [], ◌∷◌, ◌++◌, Bytes, beq, if◌then◌else◌}
use larking.Rules.Tree.{lookup, insert}
use larking.Mux.Register.{MethodDesc}

-- A request on the stream, and the lists that its answer holds: one of them, or none.
pub data Question : Type 0 where
  list_services : Question
  file_containing file_by_name : Bytes → Question

pub record Answer : Type 0 where
  pub services : List Bytes
  pub files : List Bytes

-- `Stream` is the state of the stream; `ask` sends a request and receives its answer, and is `none` where
-- one of them fails. `files` and `register` are a registry; `new_file` makes a file, and
-- may ask for the files that it imports on the way. `known` is the registry that `newResolver` fills;
-- `order` is the order in which a loop visits a map, and `sum` the hash of the descriptors.
pub record Reflection (Message : Type 0) : Type 1 where
  pub Stream : Type 0
  pub FileProto : Type 0
  pub File : Type 0
  pub ask : Question → Stream → Option (Answer × Stream)
  pub parse : Bytes → Option FileProto
  pub name : FileProto → Bytes
  pub file_path : File → Bytes
  pub services_of : File → List (Bytes × List (Bytes × MethodDesc Message))
  pub known : Option (List (Bytes × File))
  pub register : Bytes → File → List (Bytes × File) → Option (List (Bytes × File))
  pub new_file :
      FileProto → List (Bytes × File) × Stream → Option (File × List (Bytes × File) × Stream)
  pub order : List (Bytes × FileProto) → List (Bytes × FileProto)
  pub sum : Bytes → Bytes

infixl 5 ◌>>=◌
abbrev ◌>>=◌ : {A B : Type 0} → Option A → (A → Option B) → Option B
none >>= f = none
some a >>= f = f a

module _ {Message : Type 0} (p : Reflection Message) where
  open p use {Stream, FileProto, File, ask, parse, name, file_path, register, new_file}

  -- A resolver: its files and its stream.
  abbrev pub Resolver : Type 0
  Resolver = List (Bytes × File) × Stream

  -- The loop of `FindFileByPath` over the files of an answer; the last of the path is returned.
  unfoldable pub register_files :
      Bytes → List Bytes → Option File → Resolver → Option (Option File × Resolver)
  register_files path [] f r = some (f, r)
  register_files path (b ∷ bs) f r = do
    fd ← parse b
    (file, files, s) ← new_file fd r
    files' ← register (file_path file) file files
    register_files path bs (if beq (file_path file) path then some file else f) (files', s)

  unfoldable pub ask_file : Bytes → Resolver → Option (File × Resolver)
  unfolding register_files
  ask_file path (files, s) = do
    (a, s') ← ask (file_by_name path) s
    (f, r) ← register_files path a.files none (files, s')
    elim f [ none ↦ none | some file ↦ some (file, r) ]

  unfoldable pub find_file_by_path : Bytes → Resolver → Option (File × Resolver)
  unfolding ask_file lookup
  find_file_by_path path (files, s) = elim (lookup path files) [
    | some f ↦ some (f, (files, s))
    | none ↦ ask_file path (files, s)
  ]

  -- The descriptors by name, and the bytes that are summed.
  abbrev pub Found : Type 0
  Found = List (Bytes × FileProto) × Bytes

  unfoldable pub read_files : List Bytes → Found → Option Found
  unfolding insert
  read_files [] x = some x
  read_files (b ∷ bs) (fds, h) = do fd ← parse b; read_files bs (insert (name fd) fd fds, h ++ b)

  unfoldable pub read_services : List Bytes → Found → Stream → Option (Found × Stream)
  unfolding read_files
  read_services [] x s = some (x, s)
  read_services (svc ∷ svcs) x s = do
    (a, s') ← ask (file_containing svc) s
    x' ← read_files a.files x
    read_services svcs x' s'

  -- All descriptors of the connection's services.
  unfoldable pub read_all_services : Stream → Option (Found × Stream)
  unfolding read_services
  read_all_services s = do (a, s') ← ask list_services s; read_services a.services ([], []) s'
