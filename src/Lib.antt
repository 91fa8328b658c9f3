-- ===== src/Lib.antt =====
-- Verification of the C programs of this repository.
--
-- support/kconfig is the configuration engine behind `make menuconfig`: it reads the Config.in files,
-- keeps a symbol for each option, and decides from dependency expressions which options are visible
-- and what value they have. The expressions are rewritten often, when the menus are finalized, and an
-- option is shown or selected wrongly if a rewriting changes their meaning. Modelled are the
-- expressions of support/kconfig/expr.c and expr.h, with what they read of a symbol:
--   Kconfig.Symbol      symbols, `enum tristate`, sym_get_string_value (symbol.c, lkc.h)
--   Kconfig.Expr        expressions, expr_calc_value, expr_eliminate_yn, expr_trans_bool
--   Kconfig.Equality    expr_eq, expr_eliminate_eq, __expr_eliminate_eq
--   Kconfig.Transform   expr_transform
--   Kconfig.Join        expr_join_or, expr_join_and
--   Kconfig.Compare     expr_trans_compare
--   Kconfig.Extract     expr_extract_eq and its two callers
--   Kconfig.Print       expr_print
--   Kconfig.Strings     sym_string_valid, sym_escape_string_value (symbol.c), and the value of one
--                       symbol in a configuration, conf_set_sym_val and conf_write_symbol (confdata.c)
--   Kconfig.Range       sym_calc_visibility, sym_tristate_within_range, sym_toggle_tristate_value
--   Kconfig.Calc        the boolean and tristate cases of sym_calc_value, sym_get_default_prop,
--                       sym_set_tristate_value, sym_get_string_default
--   Kconfig.Calc.Choice sym_calc_choice, sym_choice_default
--   Kconfig.Calc.Number the int, hex and string cases of sym_calc_value, sym_validate_range,
--                       sym_string_within_range, sym_set_string_value
--   Kconfig.Table       strhash, sym_lookup, sym_find
--   Kconfig.Check       sym_check_deps, and the loop of conf_parse (zconf.y) over the symbols
--   Kconfig.Expand      sym_expand_string_value, with its buffers
-- A symbol is its address; a store gives the fields behind the address, with the value that
-- sym_calc_value has left there. An expression is a tree, NULL is `none`. Memory is not modelled: a
-- copy is the tree itself, and expr_free has no effect.
-- A function that needs the value or visibility of another symbol takes it from the store, where
-- sym_calc_value has left it; the recursion of sym_calc_value over the symbols is not modelled, and no
-- more is its last step, which clears SYMBOL_WRITE for a symbol with SYMBOL_AUTO.
-- The configuration files are written and read by support/kconfig/confdata.c:
--   Kconfig.Config.Line       compat_getline and add_byte, and what a line says
--   Kconfig.Config.Read       conf_read_simple for the user's configuration
--   Kconfig.Config.Write      the three printers and conf_write
--   Kconfig.Config.RoundTrip  the text of conf_write, as conf_read_simple reads it
--   Kconfig.Config.New        conf_set_all_new_symbols, randomize_choice_values
--   Kconfig.Config.Saved      conf_read behind conf_read_simple
-- The menus are made by the parser's calls of support/kconfig/menu.c:
--   Kconfig.Menu          the links of menus; menu_add_entry, menu_add_menu, menu_end_menu; and the way
--                         of conf_write from menu to menu
--   Kconfig.Menu.Forest   the tree that the links stand for
--   Kconfig.Menu.Deps     menu_check_dep, menu_add_dep, menu_add_prop, sym_check_prop
--   Kconfig.Menu.Visible  menu_is_visible, menu_is_empty
--   Kconfig.Menu.Write    conf_write over the menus, with the flag SYMBOL_WRITE
--   Kconfig.Menu.Minimal  conf_write_defconfig
-- A menu is its address, and `&menu->next` is a place of its own kind, so that `last_entry_ptr` is
-- written through as in the source. The parser itself is a list of entries and blocks in their order.
-- menu_finalize, which links the menus anew behind the parser, is not modelled: conf_write and
-- conf_write_defconfig take the links of the menus as an argument.
-- The reader takes the table of symbols as a record of what it asks of it, such as `sym_find`. A file
-- is the list of its bytes, none of them NUL; its name, the calls that open and rename it, and the place
-- of a warning are left out. Kconfig.Config.Write takes the entries that conf_write meets on its way
-- through the menus as a list.
-- The recursions that do not follow the tree take fuel: three rounds for each node for expr_eq, the
-- weight of the expression for expr_transform, a round for each node for expr_extract_eq. The reader of
-- configurations has a round for each byte and one more, since each line takes a byte at least. The way
-- through the menus has a round for each menu and a depth above their number; the check for recursive
-- dependencies has two levels for each symbol and two more, since a value of a choice calls for its choice.
--
-- toolchain/toolchain-wrapper.c is the program that stands in for the cross compiler: it starts the real
-- one with the arguments for the target, and refuses or reports paths of the build machine.
--   Toolchain.Config     the macros BR_* of the build
--   Toolchain.Unsafe     check_unsafe_path and the loops of main that call it
--   Toolchain.Arguments  the paths, predef_args, and the argument list
--   Toolchain.Main       main
-- The three buffers for paths have 4096 bytes (PATH_MAX of Linux), and a pointer has 8 bytes.
--
-- package/makedevs/makedevs.c makes the directories and device nodes of the target from a table.
--   Makedevs.System      the calls of the system and of sscanf, as parameters
--   Makedevs.Lines       the reader of lines, user and group names, concat_path_file
--   Makedevs.Directory   bb_make_directory, for a mode that is given
--   Makedevs.Entry       the directory, file or nodes of one entry
--   Makedevs.Table       the loop of main over the lines, and its status
-- The reader of the table has a round of fuel for each byte and one more, since each line takes a byte
-- at least. The numbers of an entry are below 2 ^ 20 where they are used, so that `start + count` does not
-- wrap; the minor number is reduced to 32 bits. Messages and the options of main are not modelled.
--
-- The user interfaces of kconfig, its parser, conf.c, util.c and the rest of menu.c, confdata.c and
-- symbol.c (menu_finalize, conf_split_config, sym_re_search) are not modelled,
-- nor are the makefiles, scripts and patches, which are not C.
pub mod Base
pub mod Kconfig
pub mod Makedevs
pub mod Toolchain
