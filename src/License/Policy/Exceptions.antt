-- ===== src/License/Policy/Exceptions.antt =====
-- The effects of exceptions of intelligence/license/policy.py, without the notes in words.
use ip_risk_agent_v.Base.{List, [], ◌∷◌, Text, words, map, ◌++◌}

pub data ExceptionEffect : Type 0 where
  relieves_linking relieves_output compatibility_only open_source_only : ExceptionEffect

abbrev with_effect : ExceptionEffect → List Text → List (Text × ExceptionEffect)
with_effect effect exceptions = map (λ exception. (exception, effect)) exceptions

abbrev linking : List Text
linking = words (
    "Classpath-exception-2.0 Classpath-exception-2.0-short GPL-3.0-linking-exception"
    ∷ "GPL-3.0-linking-source-exception LGPL-3.0-linking-exception"
    ∷ "GPL-3.0-interface-exception Independent-modules-exception Libtool-exception"
    ∷ "LLVM-exception Swift-exception Bootloader-exception FLTK-exception"
    ∷ "OCaml-LGPL-linking-exception Qt-GPL-exception-1.0 Qt-LGPL-exception-1.1"
    ∷ "Digia-Qt-LGPL-exception-1.1 Nokia-Qt-exception-1.1 WxWindows-exception-3.1"
    ∷ "eCos-exception-2.0 u-boot-exception-2.0 Linux-syscall-note"
    ∷ "OpenJDK-assembly-exception-1.0" ∷ [])

abbrev output : List Text
output = words (
    "GCC-exception-3.1 GCC-exception-2.0 GCC-exception-2.0-note Autoconf-exception-2.0"
    ∷ "Autoconf-exception-3.0 Autoconf-exception-generic Autoconf-exception-generic-3.0"
    ∷ "Autoconf-exception-macro Bison-exception-2.2 Bison-exception-1.24"
    ∷ "Font-exception-2.0 PS-or-PDF-font-exception-20170817 Texinfo-exception" ∷ [])

abbrev compatibility : List Text
compatibility = words (
    "cryptsetup-OpenSSL-exception kvirc-openssl-exception openvpn-openssl-exception"
    ∷ "sqlitestudio-OpenSSL-exception vsftpd-openssl-exception x11vnc-openssl-exception"
    ∷ "stunnel-exception libpri-OpenH323-exception GPL-CC-1.0" ∷ [])

abbrev open_source : List Text
open_source =
    words ("Universal-FOSS-exception-1.0 RRDtool-FLOSS-exception-2.0 DigiRule-FOSS-exception" ∷ [])

abbrev more_linking : List Text
more_linking = words (
    "gnu-javamail-exception i2p-gpl-java-exception mif-exception freertos-exception-2.0"
    ∷ "fmt-exception PCRE2-exception" ∷ [])

-- The items of `_EXCEPTION_EFFECT`.
unfoldable pub effect_items : List (Text × ExceptionEffect)
effect_items =
    with_effect ExceptionEffect.relieves_linking linking
    ++ (with_effect ExceptionEffect.relieves_output output
        ++ (with_effect ExceptionEffect.compatibility_only compatibility
            ++ (with_effect ExceptionEffect.open_source_only open_source
                ++ (with_effect ExceptionEffect.relieves_linking more_linking))))
